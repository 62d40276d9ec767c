-- ===== src/Workflow/Graph/Offers.antt =====
-- How often the loop over the layers in `validateWorkflow` of
-- packages/runtime-core/src/workflow-graph.ts offers an id.
use atlas_mcp.Prelude.{
  ℕ, zero, suc, ◌+◌, ◌-◌, ◌≤◌, String, ◌≡◌, refl, sym, ◌∙◌, ap, subst, Bool, true, false, List, [],
  ◌∷◌, ◌++◌, Map, get, put, ◌==◌, nat_eq, if◌then◌else◌, or_else, includes, sort, insert, text_le,
  arith,
}
use atlas_mcp.Workflow.Graph.{relax}
use atlas_mcp.Workflow.Graph.Counts.{occurrences, occurrences-append, degree, degree-decrement}

-- How many more times a node may be offered.
unfoldable pub free : ℕ → ℕ
free n = if nat_eq n 0 then 1 else 0

pub free-bound : (n : ℕ) → free n ≤ 1
unfolding free
free-bound n = ground arith

pub free-step : (n k : ℕ) → k ≤ free n → k + (if nat_eq n 1 then 1 else 0) ≤ free (n - 1)
unfolding free
free-step zero k bound = ground arith
free-step (suc zero) k bound = ground arith
free-step (suc (suc n)) k bound = ground arith

pub pushed-occurrences :
    (b : Bool) (y c : String) (next : List String)
    → occurrences y (if b then next ++ (c ∷ []) else next)
      ≡ occurrences y next + (if b then (if c == y then 1 else 0) else 0)
unfolding occurrences
pushed-occurrences true y c next = occurrences-append y next (c ∷ []) ∙ omega arith
pushed-occurrences false y c next = omega arith

pub degree_eq :
    (c y : String) (degrees : Map ℕ) → (c == y) ≡ true → degree c degrees ≡ degree y degrees
degree_eq c y degrees same = ground arith

pub pushed-bound :
    (same : Bool) (n m k : ℕ)
    → (same ≡ true → n ≡ m)
    → k ≤ free m
    → k + (if nat_eq n 1 then (if same then 1 else 0) else 0) ≤ free (if same then n - 1 else m)
pushed-bound true n m k equal bound =
    free-step n k (subst (λ x. k ≤ free x) (sym (equal refl)) bound)
pushed-bound false n m k equal bound = ground arith

-- No id is offered twice: one that was offered, `base` times before and in `next`, has no
-- dependencies left.
pub relax-fresh :
    (base : String → ℕ) (degrees : Map ℕ) (next children : List String)
    → ((y : String) → base y + occurrences y next ≤ free (degree y degrees))
    → (y : String)
    → base y + occurrences y (relax degrees next children).1
      ≤ free (degree y (relax degrees next children).0)
unfolding relax degree
relax-fresh base degrees next [] offered y = offered y
relax-fresh base degrees next (c ∷ cs) offered y =
    let count = or_else (get c degrees) 0 in
    let pushed = if nat_eq count 1 then next ++ (c ∷ []) else next in
    relax-fresh base (put c (count - 1) degrees) pushed cs
      (λ z.
        let kept =
          pushed-bound (c == z) (degree c degrees) (degree z degrees) (base z + occurrences z next)
            (degree_eq c z degrees) (offered z) in
        let now = degree-decrement c z degrees in
        let more = pushed-occurrences (nat_eq count 1) z c next in
        subst (λ n. base z + occurrences z pushed ≤ free n) (sym now) (omega (arith, more, kept)))
      y

pub occurrences-includes :
    (x : String) (xs : List String) → occurrences x xs ≡ 0 → includes x xs ≡ false
unfolding occurrences
occurrences-includes x [] none_there = refl
occurrences-includes x (y ∷ ys) none_there = ground (arith, occurrences-includes x ys)

pub includes-occurrences :
    (x : String) (xs : List String) → includes x xs ≡ true → 1 ≤ occurrences x xs
unfolding occurrences
includes-occurrences x [] there = cc
includes-occurrences x (y ∷ ys) there = ground (arith, includes-occurrences x ys)

pub occurrences-insert :
    (y a : String) (xs : List String)
    → occurrences y (insert text_le a xs) ≡ (if a == y then 1 else 0) + occurrences y xs
unfolding insert occurrences
occurrences-insert y a [] = refl
occurrences-insert y a (x ∷ xs) = ground (arith, occurrences-insert y a xs)

pub occurrences-sort :
    (y : String) (xs : List String) → occurrences y (sort text_le xs) ≡ occurrences y xs
unfolding sort occurrences
occurrences-sort y [] = refl
occurrences-sort y (x ∷ xs) =
    occurrences-insert y x (sort text_le xs)
    ∙ ap (λ n. (if x == y then 1 else 0) + n) (occurrences-sort y xs)

pub own-occurrence : (x : String) → ◌≡◌ {A = ℕ} (if x == x then 1 else 0) 1
own-occurrence x = ground arith
