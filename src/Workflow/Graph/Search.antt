-- ===== src/Workflow/Graph/Search.antt =====
-- The rounds of the search of `hasDependency` in packages/runtime-core/src/workflow-graph.ts.
use atlas_mcp.Prelude.{
  ℕ, zero, suc, ◌+◌, ◌≤◌, String, ◌≡◌, refl, Bool, true, false, Option, some, List, [], ◌∷◌, Map,
  get, ◌==◌, if◌then◌else◌, length, includes, arith,
}
use atlas_mcp.Protocol.Workflow.{Node}
use atlas_mcp.Workflow.Graph.{push_all, dependencies, search_loop, unvisited, has_dependency}

length-push_all :
    (ids stack : List String) → length (push_all ids stack) ≡ length ids + length stack
unfolding push_all
length-push_all [] stack = omega arith
length-push_all (id ∷ ids) stack = omega (arith, length-push_all ids (id ∷ stack))

unvisited-more :
    (id : String) (visited : List String) (nodes : Map Node)
    → unvisited (id ∷ visited) nodes ≤ unvisited visited nodes
unfolding unvisited
unvisited-more id visited [] = omega arith
unvisited-more id visited ((i, n) ∷ nodes) = ground (arith, unvisited-more id visited nodes)

unvisited-visit :
    (id : String) (visited : List String) (nodes : Map Node)
    → includes id visited ≡ false
    → unvisited (id ∷ visited) nodes + length (dependencies nodes id) ≤ unvisited visited nodes
unfolding unvisited dependencies get
unvisited-visit id visited [] new = omega arith
unvisited-visit id visited ((i, n) ∷ nodes) new =
    let rest = unvisited-visit id visited nodes new in
    let more = unvisited-more id visited nodes in ground arith

abbrev Answers : Option Bool → Type 0
Answers answer = (b : Bool) × (answer ≡ some b)

Answers-if :
    (b : Bool) (x y : Option Bool)
    → Answers x
    → (b ≡ false → Answers y)
    → Answers (if b then x else y)
Answers-if true x y here there = here
Answers-if false x y here there = there refl

below-zero : (n : ℕ) → suc n ≤ 0 → ⊥
below-zero n h = omega arith

entered-bound :
    (fuel : ℕ) (id : String) (visited pending : List String) (nodes : Map Node)
    → suc (length pending) + unvisited visited nodes ≤ suc fuel
    → includes id visited ≡ false
    → length (push_all (dependencies nodes id) pending) + unvisited (id ∷ visited) nodes ≤ fuel
entered-bound fuel id visited pending nodes enough new =
    omega
      (arith, length-push_all (dependencies nodes id) pending, unvisited-visit id visited nodes new)

-- With fuel for the nodes on the stack and for the dependencies of those not visited, it answers.
search_loop-Answers :
    (fuel : ℕ) (nodes : Map Node) (wanted : String) (visited pending : List String)
    → length pending + unvisited visited nodes ≤ fuel
    → Answers (search_loop fuel nodes wanted visited pending)
unfolding search_loop
search_loop-Answers fuel nodes wanted visited [] enough = (false, refl)
search_loop-Answers zero nodes wanted visited (id ∷ pending) enough =
    elim (below-zero (length pending + unvisited visited nodes) (omega arith)) [ ]
search_loop-Answers (suc fuel) nodes wanted visited (id ∷ pending) enough =
    Answers-if (id == wanted) (some true) _ (true, refl)
      (λ _.
        Answers-if (includes id visited) _ _
          (search_loop-Answers fuel nodes wanted visited pending (omega arith))
          (λ new.
            search_loop-Answers fuel nodes wanted (id ∷ visited)
              (push_all (dependencies nodes id) pending)
              (entered-bound fuel id visited pending nodes enough new)))

-- The search answers within as many steps as the start and all nodes have dependencies.
pub has_dependency-Answers :
    (nodes : Map Node) (id wanted : String) → (b : Bool) × (has_dependency nodes id wanted ≡ some b)
unfolding has_dependency
has_dependency-Answers nodes id wanted =
    search_loop-Answers (length (dependencies nodes id) + unvisited [] nodes) nodes wanted []
      (push_all (dependencies nodes id) [])
      (omega (arith, length-push_all (dependencies nodes id) []))
