-- ===== src/Workflow/Graph/Counts.antt =====
-- The counts of dependencies in `validateWorkflow` of packages/runtime-core/src/workflow-graph.ts.
use atlas_mcp.Prelude.{
  ℕ, ◌+◌, ◌-◌, ◌≤◌, String, ◌≡◌, refl, ◌∙◌, ap, Bool, true, false, List, [], ◌∷◌, ◌++◌, map, Map,
  get, put, get-put, ◌==◌, nat_eq, if◌then◌else◌, or_else, length, includes, arith,
}
use atlas_mcp.Protocol.Workflow.{Node}
use atlas_mcp.Workflow.Graph.{relax, add_dependent, add_dependents, dependents_of, indegrees_of}

-- How often an id stands in a list.
unfoldable pub occurrences : String → List String → ℕ
occurrences y [] = 0
occurrences y (x ∷ xs) = (if x == y then 1 else 0) + occurrences y xs

pub occurrences-append :
    (y : String) (xs ys : List String)
    → occurrences y (xs ++ ys) ≡ occurrences y xs + occurrences y ys
unfolding occurrences
occurrences-append y [] ys = omega arith
occurrences-append y (x ∷ xs) ys = omega (arith, occurrences-append y xs ys)

-- The count that stands for a node.
unfoldable pub degree : String → Map ℕ → ℕ
degree c degrees = or_else (get c degrees) 0

pub degree-decrement :
    (c y : String) (degrees : Map ℕ)
    → degree y (put c (or_else (get c degrees) 0 - 1) degrees)
      ≡ (if c == y then degree c degrees - 1 else degree y degrees)
unfolding degree
degree-decrement c y degrees = ground (arith, get-put c y (or_else (get c degrees) 0 - 1) degrees)

degree-put :
    (c y : String) (n : ℕ) (degrees : Map ℕ)
    → degree y (put c n degrees) ≡ (if c == y then n else degree y degrees)
unfolding degree
degree-put c y n degrees = ground (arith, get-put c y n degrees)

minus-step :
    (b : Bool) (n k rest : ℕ)
    → rest ≡ (if b then n - 1 else n) - k
    → rest ≡ n - ((if b then 1 else 0) + k)
minus-step true n k rest e = omega arith
minus-step false n k rest e = omega arith

put-degree :
    (b : Bool) (c y : String) (degrees : Map ℕ)
    → (c == y) ≡ b
    → (if b then degree c degrees - 1 else degree y degrees)
      ≡ (if b then degree y degrees - 1 else degree y degrees)
put-degree true c y degrees same = ground arith
put-degree false c y degrees same = refl

pub degree-relax :
    (y : String) (degrees : Map ℕ) (next children : List String)
    → degree y (relax degrees next children).0 ≡ degree y degrees - occurrences y children
unfolding relax occurrences
degree-relax y degrees next [] = omega arith
degree-relax y degrees next (c ∷ cs) =
    let count = or_else (get c degrees) 0 in
    let pushed = if nat_eq count 1 then next ++ (c ∷ []) else next in
    minus-step (c == y) (degree y degrees) (occurrences y cs)
      (degree y (relax degrees next (c ∷ cs)).0)
      (degree-relax y (put c (count - 1) degrees) pushed cs
        ∙ ap (λ n. n - occurrences y cs)
            (degree-decrement c y degrees ∙ put-degree (c == y) c y degrees refl))

-- How often `x` is a dependency of the nodes with the id `c`.
pub needs : String → String → List Node → ℕ
needs c x [] = 0
needs c x (n ∷ ns) = (if n.id == c then occurrences x n.depends_on else 0) + needs c x ns

abbrev children : String → Map (List String) → List String
children x m = or_else (get x m) []

children-put :
    (x d : String) (v : List String) (m : Map (List String))
    → children x (put d v m) ≡ (if d == x then v else children x m)
children-put x d v m = ground (arith, get-put d x v m)

occurrences-pushed :
    (b : Bool) (c x d id : String) (m : Map (List String))
    → (d == x) ≡ b
    → occurrences c (if b then children d m ++ (id ∷ []) else children x m)
      ≡ occurrences c (children x m) + (if b then (if id == c then 1 else 0) else 0)
unfolding occurrences
occurrences-pushed true c x d id m same =
    let append = occurrences-append c (children d m) (id ∷ []) in
    let one : children d m ≡ children x m = ground arith in
    append ∙ ap (λ xs. occurrences c xs + ((if id == c then 1 else 0) + 0)) one ∙ omega arith
occurrences-pushed false c x d id m same = omega arith

occurrences-put :
    (c x d id : String) (m : Map (List String))
    → occurrences c (children x (put d (children d m ++ (id ∷ [])) m))
      ≡ occurrences c (children x m) + (if d == x then (if id == c then 1 else 0) else 0)
occurrences-put c x d id m =
    ap (occurrences c) (children-put x d (children d m ++ (id ∷ [])) m)
    ∙ occurrences-pushed (d == x) c x d id m refl

add_steps :
    (a b : Bool) (n k : ℕ)
    → n + (if a then (if b then 1 else 0) else 0) + (if b then k else 0)
      ≡ n + (if b then (if a then 1 else 0) + k else 0)
add_steps true true n k = omega arith
add_steps true false n k = omega arith
add_steps false true n k = omega arith
add_steps false false n k = omega arith

no_step : (b : Bool) (n : ℕ) → n ≡ n + (if b then 0 else 0)
no_step true n = omega arith
no_step false n = omega arith

occurrences-add_dependent :
    (c x id : String) (ds : List String) (m : Map (List String))
    → occurrences c (children x (add_dependent id ds m))
      ≡ occurrences c (children x m) + (if id == c then occurrences x ds else 0)
unfolding add_dependent occurrences
occurrences-add_dependent c x id [] m = no_step (id == c) (occurrences c (children x m))
occurrences-add_dependent c x id (d ∷ ds) m =
    occurrences-add_dependent c x id ds (put d (children d m ++ (id ∷ [])) m)
    ∙ ap (λ n. n + (if id == c then occurrences x ds else 0)) (occurrences-put c x d id m)
    ∙ add_steps (d == x) (id == c) (occurrences c (children x m)) (occurrences x ds)

occurrences-add_dependents :
    (c x : String) (ns : List Node) (m : Map (List String))
    → occurrences c (children x (add_dependents ns m)) ≡ occurrences c (children x m) + needs c x ns
unfolding add_dependents needs
occurrences-add_dependents c x [] m = omega arith
occurrences-add_dependents c x (n ∷ ns) m =
    occurrences-add_dependents c x ns (add_dependent n.id n.depends_on m)
    ∙ ap (λ k. k + needs c x ns) (occurrences-add_dependent c x n.id n.depends_on m)
    ∙ omega arith

-- A node stands among the dependents of another as often as that is a dependency of it.
pub occurrences-dependents_of :
    (c x : String) (nodes : List Node)
    → occurrences c (or_else (get x (dependents_of nodes)) []) ≡ needs c x nodes
unfolding dependents_of occurrences get
occurrences-dependents_of c x nodes = occurrences-add_dependents c x nodes [] ∙ omega arith

-- How many dependencies are not done, in a list, and of the nodes with the id `c`.
unfoldable pub missing : List String → List String → ℕ
missing done [] = 0
missing done (d ∷ ds) = (if includes d done then 0 else 1) + missing done ds

unfoldable pub waits : String → List String → List Node → ℕ
waits c done [] = 0
waits c done (n ∷ ns) = (if n.id == c then missing done n.depends_on else 0) + waits c done ns

missing-done :
    (x : String) (done ds : List String)
    → includes x done ≡ false
    → missing (x ∷ done) ds + occurrences x ds ≡ missing done ds
unfolding missing occurrences
missing-done x done [] new = omega arith
missing-done x done (d ∷ ds) new = ground (arith, missing-done x done ds)

-- When a node is done, the others wait for it no more.
pub waits-done :
    (c x : String) (done : List String) (nodes : List Node)
    → includes x done ≡ false
    → waits c (x ∷ done) nodes + needs c x nodes ≡ waits c done nodes
unfolding waits needs
waits-done c x done [] new = omega arith
waits-done c x done (n ∷ ns) new =
    let rest = waits-done c x done ns new in
    let here = missing-done x done n.depends_on new in ground arith

missing-nothing : (ds : List String) → missing [] ds ≡ length ds
unfolding missing
missing-nothing [] = refl
missing-nothing (d ∷ ds) = omega (arith, missing-nothing ds)

-- The ids are distinct.
abbrev pub AreDistinct : List Node → Type 0
AreDistinct nodes = (y : String) → occurrences y (map (λ n. n.id) nodes) ≤ 1

waits-absent :
    (c : String) (done : List String) (nodes : List Node)
    → occurrences c (map (λ n. n.id) nodes) ≡ 0
    → waits c done nodes ≡ 0
unfolding waits occurrences
waits-absent c done [] absent = refl
waits-absent c done (n ∷ ns) absent = ground (arith, waits-absent c done ns)

-- At the start, the count of a node is what it waits for.
pub degree-indegrees_of :
    (c : String) (nodes : List Node)
    → occurrences c (map (λ n. n.id) nodes) ≤ 1
    → degree c (indegrees_of nodes) ≡ waits c [] nodes
unfolding degree indegrees_of waits occurrences get
degree-indegrees_of c [] distinct = refl
degree-indegrees_of c (n ∷ ns) distinct =
    let rest = degree-indegrees_of c ns in
    let absent = waits-absent c [] ns in let all = missing-nothing n.depends_on in ground arith
