-- ===== src/Prelude/Maps.antt =====
-- `Map` and `Record` with string keys: an association list in insertion order. A write to a key
-- that is there keeps its place, as in JavaScript.
use Prim.Native.String.{String}
use mathlib.Core.Path.{◌≡◌, refl}
use mathlib.Core.Logic.{◌≢◌}
use mathlib.Core.Bool.{Bool, not}
use mathlib.Core.Option.{Option, none, some}
use mathlib.Core.List.{List, [], ◌∷◌, map}
use native.Mathlib.Omega.{arith}
use atlas_mcp.Prelude.Tests.{◌==◌, if◌then◌else◌, is_none}

abbrev pub Map {ℓ} : Type ℓ → Type ℓ
Map V = List (String × V)

module _ {ℓ} {V : Type ℓ} where
  unfoldable pub get : String → Map V → Option V
  get k [] = none
  get k ((j, v) ∷ m) = let rest = get k m in if j == k then some v else rest

  unfoldable pub put : String → V → Map V → Map V
  put k v [] = (k, v) ∷ []
  put k v ((j, w) ∷ m) = let rest = put k v m in if j == k then (k, v) ∷ m else (j, w) ∷ rest

  unfoldable pub delete : String → Map V → Map V
  delete k [] = []
  delete k ((j, w) ∷ m) = let rest = delete k m in if j == k then rest else (j, w) ∷ rest

  unfoldable pub has : String → Map V → Bool
  unfolding get
  has k m = not (is_none (get k m))

  unfoldable pub keys : Map V → List String
  keys m = map (λ e. e.0) m

  unfoldable pub values : Map V → List V
  values m = map (λ e. e.1) m

  pub get-put :
      (k j : String) (v : V) (m : Map V) → get j (put k v m) ≡ (if k == j then some v else get j m)
  unfolding get put
  get-put k j v [] = refl
  get-put k j v ((i, w) ∷ m) = ground (arith, get-put k j v m)

  pub get-delete :
      (k j : String) (m : Map V) → get j (delete k m) ≡ (if k == j then none else get j m)
  unfolding get delete
  get-delete k j [] = ground arith
  get-delete k j ((i, w) ∷ m) = ground (arith, get-delete k j m)

  pub get-put_self : (k : String) (v : V) (m : Map V) → get k (put k v m) ≡ some v
  get-put_self k v m = ground (arith, get-put k k v m)

  pub get-put_ne : (k j : String) (v : V) (m : Map V) → k ≢ j → get j (put k v m) ≡ get j m
  get-put_ne k j v m h = ground (arith, get-put k j v m)

pub ruleset map_laws = (get-put, get-delete)
