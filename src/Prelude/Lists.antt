-- ===== src/Prelude/Lists.antt =====
-- Lists measured by native numbers, the Boolean quantifiers, and the predicates that proofs use.
use Prim.Native.Nat.{ℕ, zero, suc, ◌+◌}
use Prim.Native.String.{String}
use mathlib.Core.Path.{◌≡◌}
use mathlib.Core.Logic.{◌⊎◌}
use mathlib.Core.Bool.{Bool, true, false, ◌&&◌, ◌||◌}
use mathlib.Core.Option.{Option, none, some}
use mathlib.Core.List.{List, [], ◌∷◌, ◌++◌}
use native.Mathlib.Omega.{arith}
use atlas_mcp.Prelude.Tests.{◌==◌, if◌then◌else◌}

module _ {ℓ} {A : Type ℓ} where
  abbrev pub length : List A → ℕ
  length [] = 0
  length (x ∷ xs) = suc (length xs)

  -- `xs.some(test)`
  abbrev pub some_of : (A → Bool) → List A → Bool
  some_of p [] = false
  some_of p (x ∷ xs) = p x || some_of p xs

  -- `xs.every(test)`
  abbrev pub every_of : (A → Bool) → List A → Bool
  every_of p [] = true
  every_of p (x ∷ xs) = p x && every_of p xs

  -- `xs.filter(test)`
  abbrev pub filter_of : (A → Bool) → List A → List A
  filter_of p [] = []
  filter_of p (x ∷ xs) = let rest = filter_of p xs in if p x then x ∷ rest else rest

  -- `xs.find(test)`
  abbrev pub find_of : (A → Bool) → List A → Option A
  find_of p [] = none
  find_of p (x ∷ xs) = let rest = find_of p xs in if p x then some x else rest

  -- `xs.slice(0, n)`
  abbrev pub take : ℕ → List A → List A
  take zero xs = []
  take (suc n) [] = []
  take (suc n) (x ∷ xs) = x ∷ take n xs

  pub length-append : (xs ys : List A) → length (xs ++ ys) ≡ length xs + length ys
  length-append [] ys = omega arith
  length-append (x ∷ xs) ys = omega (arith, length-append xs ys)

-- `xs.includes(s)`
abbrev pub includes : String → List String → Bool
includes s xs = some_of (λ x. x == s) xs

-- Every element of the list has the property.
abbrev pub All {ℓ κ} : {A : Type ℓ} → (A → Type κ) → List A → Type κ
All P [] = Unit
All P (x ∷ xs) = P x × All P xs

-- Membership with the place kept.
abbrev pub In : {A : Type 0} → A → List A → Type 0
In a [] = ⊥
In a (x ∷ xs) = (x ≡ a) ⊎ In a xs
