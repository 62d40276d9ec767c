-- ===== src/Prelude/Sort.antt =====
-- `Array.prototype.sort` as insertion sort by a Boolean order, and the order of texts.
use Prim.Native.Char.{code}
use Prim.Native.String as Text
use Prim.Native.String.{String}
use mathlib.Core.Bool.{Bool, true, false}
use mathlib.Core.List.{List, [], ◌∷◌}
use atlas_mcp.Prelude.Tests.{ltb, nat_eq, if◌then◌else◌}

-- The order of code points, which is that of UTF-16 units below 0xd800, node ids included.
unfoldable pub text_le : String → String → Bool
text_le Text.[] t = true
text_le (Text.◌∷◌ c s) Text.[] = false
text_le (Text.◌∷◌ c s) (Text.◌∷◌ d t) =
    let rest = text_le s t in
    if ltb (code c) (code d) then true else if nat_eq (code c) (code d) then rest else false

module _ {ℓ} {A : Type ℓ} (le : A → A → Bool) where
  unfoldable pub insert : A → List A → List A
  insert a [] = a ∷ []
  insert a (x ∷ xs) = let rest = insert a xs in if le a x then a ∷ x ∷ xs else x ∷ rest

  unfoldable pub sort : List A → List A
  sort [] = []
  sort (x ∷ xs) = insert x (sort xs)
