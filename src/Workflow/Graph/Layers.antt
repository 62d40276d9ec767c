-- ===== src/Workflow/Graph/Layers.antt =====
-- The rounds of the loop over the layers of packages/runtime-core/src/workflow-graph.ts.
use atlas_mcp.Prelude.{
  ℕ, zero, suc, ◌+◌, ◌-◌, ◌≤◌, ◌<◌, String, ◌≡◌, refl, ◌∙◌, ap, ◌⊎◌, Bool, true, false, Option,
  none, some, List, [], ◌∷◌, ◌++◌, Map, get, put, ◌==◌, nat_eq, ltb, if◌then◌else◌, or_else, length,
  length-append, sort, inl, inr, insert, text_le, arith,
}
use atlas_mcp.Protocol.Workflow.{Node}
use atlas_mcp.Workflow.Graph.{
  relax, relax_layer, layer_loop, consed, layers_of, indegrees_of, dependents_of, roots,
}

-- One, if the count is not zero.
positive : ℕ → ℕ
positive n = if ltb 0 n then 1 else 0

-- One, if the next decrement makes it zero.
landing : ℕ → ℕ
landing n = if nat_eq n 1 then 1 else 0

-- How many counts are not zero.
waiting : Map ℕ → ℕ
waiting [] = 0
waiting ((id, n) ∷ degrees) = positive n + waiting degrees

positive-decrement : (n : ℕ) → positive (n - 1) + landing n ≡ positive n
unfolding positive landing
positive-decrement zero = refl
positive-decrement (suc zero) = refl
positive-decrement (suc (suc n)) = ground arith

waiting-put_cons :
    (b : Bool) (c id : String) (n : ℕ) (degrees : Map ℕ)
    → waiting (put c (or_else (get c degrees) 0 - 1) degrees) + landing (or_else (get c degrees) 0)
      ≡ waiting degrees
    → waiting (
          if b
          then (c, or_else (if b then some n else get c degrees) 0 - 1) ∷ degrees
          else (id, n) ∷ put c (or_else (if b then some n else get c degrees) 0 - 1) degrees)
        + landing (or_else (if b then some n else get c degrees) 0)
      ≡ waiting ((id, n) ∷ degrees)
unfolding waiting
waiting-put_cons true c id n degrees rest = omega (arith, positive-decrement n)
waiting-put_cons false c id n degrees rest = omega arith

waiting-single : (c : String) → waiting ((c, 0 - 1) ∷ []) + landing 0 ≡ waiting []
unfolding waiting positive landing
waiting-single c = refl

waiting-put :
    (c : String) (degrees : Map ℕ)
    → waiting (put c (or_else (get c degrees) 0 - 1) degrees) + landing (or_else (get c degrees) 0)
      ≡ waiting degrees
unfolding put get
waiting-put c [] = waiting-single c
waiting-put c ((id, n) ∷ degrees) =
    waiting-put_cons (id == c) c id n degrees (waiting-put c degrees)

push-length :
    (b : Bool) (c : String) (next : List String)
    → length (if b then next ++ (c ∷ []) else next) ≡ length next + (if b then 1 else 0)
push-length true c next = length-append next (c ∷ [])
push-length false c next = omega arith

length-pushed :
    (count : ℕ) (c : String) (next : List String)
    → length (if nat_eq count 1 then next ++ (c ∷ []) else next) ≡ length next + landing count
unfolding landing
length-pushed count c next = push-length (nat_eq count 1) c next

waiting-relax :
    (degrees : Map ℕ) (next children : List String)
    → waiting (relax degrees next children).0 + length (relax degrees next children).1
      ≡ waiting degrees + length next
unfolding relax
waiting-relax degrees next [] = refl
waiting-relax degrees next (c ∷ cs) =
    let count = or_else (get c degrees) 0 in
    let pushed = if nat_eq count 1 then next ++ (c ∷ []) else next in
    waiting-relax (put c (count - 1) degrees) pushed cs
    ∙ ap (λ n. waiting (put c (count - 1) degrees) + n) (length-pushed count c next)
    ∙ omega (arith, waiting-put c degrees)

waiting-relax_layer :
    (dependents : Map (List String)) (degrees : Map ℕ) (next layer : List String)
    → waiting (relax_layer dependents degrees next layer).0
        + length (relax_layer dependents degrees next layer).1
      ≡ waiting degrees + length next
unfolding relax_layer
waiting-relax_layer dependents degrees next [] = refl
waiting-relax_layer dependents degrees next (id ∷ ids) =
    let children = or_else (get id dependents) [] in
    let done = relax degrees next children in
    waiting-relax_layer dependents done.0 done.1 ids ∙ waiting-relax degrees next children

length-insert : (a : String) (xs : List String) → length (insert text_le a xs) ≡ suc (length xs)
unfolding insert
length-insert a [] = refl
length-insert a (x ∷ xs) = ground (arith, length-insert a xs)

length-sort : (xs : List String) → length (sort text_le xs) ≡ length xs
unfolding sort
length-sort [] = refl
length-sort (x ∷ xs) = length-insert x (sort text_le xs) ∙ ap suc (length-sort xs)

abbrev Ends : Option (List (List String)) → Type 0
Ends layers = (found : List (List String)) × (layers ≡ some found)

consed-Ends :
    (layer : List String) (layers : Option (List (List String)))
    → Ends layers
    → Ends (consed layer layers)
unfolding consed
consed-Ends layer none (found, e) = cc
consed-Ends layer (some rest) ended = (layer ∷ rest, refl)

next-enough :
    (fuel before after : ℕ) (pushed : List String)
    → before < suc fuel
    → after + length pushed ≡ before + 0
    → (after < fuel) ⊎ (sort text_le pushed ≡ [])
unfolding sort
next-enough fuel before after [] bound drop = inr refl
next-enough fuel before after (c ∷ cs) bound drop = inl (omega arith)

below-zero : (n : ℕ) → n < 0 → ⊥
below-zero n h = omega arith

-- With more fuel than there are counts that are not zero, the loop ends.
layer_loop-Ends :
    (fuel : ℕ) (dependents : Map (List String)) (degrees : Map ℕ) (ready : List String)
    → (waiting degrees < fuel) ⊎ (ready ≡ [])
    → Ends (layer_loop fuel dependents degrees ready)
unfolding layer_loop
layer_loop-Ends fuel dependents degrees [] enough = ([], refl)
layer_loop-Ends fuel dependents degrees (id ∷ ids) (inr nothing) = cc
layer_loop-Ends zero dependents degrees (id ∷ ids) (inl enough) =
    elim (below-zero (waiting degrees) enough) [ ]
layer_loop-Ends (suc fuel) dependents degrees (id ∷ ids) (inl enough) =
    let done = relax_layer dependents degrees [] (id ∷ ids) in
    consed-Ends (id ∷ ids) (layer_loop fuel dependents done.0 (sort text_le done.1)) (
      layer_loop-Ends fuel dependents done.0 (sort text_le done.1) (
        next-enough fuel (waiting degrees) (waiting done.0) done.1 enough
          (waiting-relax_layer dependents degrees [] (id ∷ ids))))

positive-bound : (n : ℕ) → positive n ≤ 1
unfolding positive
positive-bound n = ground arith

waiting-indegrees_of : (nodes : List Node) → waiting (indegrees_of nodes) ≤ length nodes
unfolding waiting indegrees_of
waiting-indegrees_of [] = omega arith
waiting-indegrees_of (n ∷ ns) =
    let rest = waiting-indegrees_of ns in
    let here = positive-bound (length n.depends_on) in omega arith

-- The loop over the layers ends within as many rounds as there are nodes, and one more.
pub layers_of-Ends :
    (nodes : List Node) → (layers : List (List String)) × (layers_of nodes ≡ some layers)
unfolding layers_of
layers_of-Ends nodes =
    layer_loop-Ends (suc (length nodes)) (dependents_of nodes) (indegrees_of nodes) (roots nodes)
      (inl (omega (arith, waiting-indegrees_of nodes)))
