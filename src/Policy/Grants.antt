-- ===== src/Policy/Grants.antt =====
-- `patternMatches` and `capabilityRefusal` of packages/policy-core/src/index.ts, with
-- `CapabilityGrantSchema` and `principalRef` of packages/protocol/src/index.ts.
pub mod Coverage
use Prim.Native.Char.{Char, code}
use Prim.Native.String as Text
use native.Mathlib.Decide.{ℕ_discrete}
use atlas_mcp.Prelude.{
  ℕ, String, Bool, true, false, not, ◌&&◌, ◌||◌, Option, none, some, List, [], ◌∷◌, nat_eq, ltb,
  ◌==◌, if◌then◌else◌, some_of, filter_of, find_of, holds,
}
use atlas_mcp.Protocol.Effect.{Effect, Effect-discrete}
use atlas_mcp.Protocol.Task.{Principal, PrincipalKind, Identity}
use atlas_mcp.Policy.Platform.{concat}
use atlas_mcp.Policy.Classify.{Classified}

pub record Grant : Type 0 where
  pub id : String
  pub capability : String
  pub effects : List Effect
  pub target : String
  pub principal : String
  pub valid_until : Option ℕ
  pub policy_version : Option String

-- The characters that `.` of a regular expression does not match.
abbrev pub ends_line : Char → Bool
ends_line c =
    nat_eq (code c) 10 || nat_eq (code c) 13 || nat_eq (code c) 8232 || nat_eq (code c) 8233

-- `.*` and then a rest that `f` accepts
unfoldable pub star : (String → Bool) → String → Bool
star f Text.[] = f ""
star f (Text.◌∷◌ c s) = let rest = star f s in f (Text.◌∷◌ c s) || (not (ends_line c) && rest)

abbrev pub literal : Char → (String → Bool) → String → Bool
literal c f Text.[] = false
literal c f (Text.◌∷◌ d s) = nat_eq (code c) (code d) && f s

-- The regular expression that a pattern is turned into, on the whole of a text.
unfoldable pub glob : String → String → Bool
glob Text.[] s = s == ""
glob (Text.◌∷◌ c p) s = if nat_eq (code c) 42 then star (glob p) s else literal c (glob p) s

-- `patternMatches`
unfoldable pub pattern_matches : String → String → Bool
pattern_matches pattern' value = if pattern' == "*" then true else glob pattern' value

unfoldable pub principal_kind_text : PrincipalKind → String
principal_kind_text PrincipalKind.organization = "organization"
principal_kind_text PrincipalKind.human = "human"
principal_kind_text PrincipalKind.harness = "harness"
principal_kind_text PrincipalKind.agent = "agent"
principal_kind_text PrincipalKind.session = "session"
principal_kind_text PrincipalKind.subagent = "subagent"
principal_kind_text PrincipalKind.service = "service"

-- `principalRef`
unfoldable pub principal_ref : Principal → String
principal_ref p = concat (principal_kind_text p.kind ∷ ":" ∷ p.id ∷ [])

abbrev pub has_effect : Effect → List Effect → Bool
has_effect e es = some_of (λ x. holds (Effect-discrete x e)) es

-- The grant covers the effect for the holder, its validity aside.
unfoldable pub covers : Classified → String → Grant → Bool
covers c holder g =
    pattern_matches g.capability c.capability
    && has_effect c.effect g.effects
    && pattern_matches g.target c.target
    && pattern_matches g.principal holder

abbrev pub still_valid : ℕ → Option ℕ → Bool
still_valid now none = true
still_valid now (some until) = ltb now until

abbrev pub same_version : String → Option String → Bool
same_version version none = true
same_version version (some v) = v == version

-- The grant has not run out, and was issued against this version of the policy, or against none.
unfoldable pub usable : ℕ → String → Grant → Bool
usable now version g = still_valid now g.valid_until && same_version version g.policy_version

-- Why no grant covers an effect.
pub data Refusal : Type 0 where
  not_granted : (capability : String) → Refusal
  version_mismatch expired : (id : String) → Refusal

-- `grant.policyVersion !== policy.version`, which a grant without a version meets too
abbrev pub stale : String → Grant → Bool
stale version g = elim g.policy_version [ none ↦ true | some v ↦ not (v == version) ]

abbrev pub expired_grant : Classified → List Grant → Refusal
expired_grant c [] = expired c.capability
expired_grant c (g ∷ gs) = expired g.id

-- The end of `capabilityRefusal`: all grants that cover the effect are stale or have run out.
unfoldable pub refusal_of : Classified → String → List Grant → Refusal
refusal_of c version matching = elim (find_of (stale version) matching) [
  | none ↦ expired_grant c matching
  | some g ↦ elim g.policy_version [
    | none ↦ expired_grant c matching
    | some _ ↦ version_mismatch g.id
  ]
]

unfoldable pub refuse_matching : Classified → ℕ → String → List Grant → Option Refusal
refuse_matching c now version [] = some (not_granted c.capability)
refuse_matching c now version (g ∷ gs) =
    if some_of (usable now version) (g ∷ gs) then none else some (refusal_of c version (g ∷ gs))

-- `capabilityRefusal`, at the time `now`
unfoldable pub capability_refusal : Classified → Identity → String → List Grant → ℕ → Option Refusal
capability_refusal c who version [] now = none
capability_refusal c who version (g ∷ gs) now =
    refuse_matching c now version (filter_of (covers c (principal_ref who.principal)) (g ∷ gs))
