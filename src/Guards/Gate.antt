-- ===== src/Guards/Gate.antt =====
-- packages/runtime-core/src/verification-gate.ts.
pub mod Duty
use atlas_mcp.Prelude.{String, Bool, true, false, not, ◌&&◌, Option, none, some, if◌then◌else◌}

pub data ToolEffect : Type 0 where
  read mutate : ToolEffect

-- An absent flag is `false`: the code asks for `=== true`.
pub record Observation : Type 0 where
  pub name : String
  pub effect : ToolEffect
  pub structured_verification : Bool
  pub expectation_provided : Bool

pub record GateState : Type 0 where
  pub mutated : Bool
  pub verified_after_mutation : Bool
  pub prompted : Bool
  pub last_mutator : Option String

-- `createVerificationGateState`
unfoldable pub create : GateState
create = record {
  mutated = false;
  verified_after_mutation = false;
  prompted = false;
  last_mutator = none;
}

-- The branch of `observeToolCall` for each effect.
unfoldable pub observe_as : ToolEffect → GateState → Observation → GateState
observe_as mutate s o = record s {
  mutated = true;
  verified_after_mutation = false;
  last_mutator = some o.name;
}
observe_as read s o =
    if s.mutated && o.structured_verification && o.expectation_provided
    then record s { verified_after_mutation = true }
    else s

-- `observeToolCall`
unfoldable pub observe : GateState → Observation → GateState
observe s o = observe_as o.effect s o

-- `requiresVerification`
unfoldable pub requires_verification : GateState → Bool
requires_verification s = s.mutated && not s.verified_after_mutation && not s.prompted

-- `markVerificationPrompted`
unfoldable pub mark_prompted : GateState → GateState
mark_prompted s = record s { prompted = true }
