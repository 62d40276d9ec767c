-- ===== src/Policy/Grants/Coverage.antt =====
-- When `capabilityRefusal` of packages/policy-core/src/index.ts refuses nothing.
use mathlib.Core.Logic.{◌⊎◌}
use atlas_mcp.Prelude.{
  ℕ, String, ◌≡◌, refl, ◌↔◌, Bool, true, ◌&&◌, none, List, [], ◌∷◌, some_of, filter_of, arith,
}
use atlas_mcp.Protocol.Task.{Identity}
use atlas_mcp.Policy.Classify.{Classified}
use atlas_mcp.Policy.Grants.{
  Grant, covers, usable, refuse_matching, capability_refusal, principal_ref,
}

some_of-filter_of {ℓ} :
    {A : Type ℓ} (f g : A → Bool) (xs : List A)
    → some_of g (filter_of f xs) ≡ some_of (λ x. f x && g x) xs
some_of-filter_of f g [] = refl
some_of-filter_of f g (x ∷ xs) = ground (arith, some_of-filter_of f g xs)

refuse_matching_lem :
    (c : Classified) (now : ℕ) (version : String) (gs : List Grant)
    → (refuse_matching c now version gs ≡ none) ↔ (some_of (usable now version) gs ≡ true)
unfolding refuse_matching
refuse_matching_lem c now version [] = ground arith
refuse_matching_lem c now version (g ∷ gs) = ground arith

-- A policy without grants refuses no effect; a policy with grants refuses an effect unless one grant
-- both covers it for the principal and is usable.
pub capability_refusal_iff :
    (c : Classified) (who : Identity) (version : String) (gs : List Grant) (now : ℕ)
    → (capability_refusal c who version gs now ≡ none) ↔ (
        (gs ≡ [])
        ⊎ (some_of (λ g. covers c (principal_ref who.principal) g && usable now version g) gs
            ≡ true))
unfolding capability_refusal
capability_refusal_iff c who version [] now = ground arith
capability_refusal_iff c who version (g ∷ gs) now = ground (
  arith,
  refuse_matching_lem c now version (filter_of (covers c (principal_ref who.principal)) (g ∷ gs)),
  some_of-filter_of (covers c (principal_ref who.principal)) (usable now version) (g ∷ gs),
)
