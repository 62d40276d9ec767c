-- ===== src/Protocol/Effect.antt =====
-- Effects, policy decisions and approvals of packages/protocol/src/index.ts.
use native.Mathlib.Decide.{ℕ_discrete}
use atlas_mcp.Prelude.{ℕ, String, text_dec}

pub data Effect : Type 0 where
  read mutate destructive : Effect

unfoldable pub Effect-discrete : Discrete Effect
Effect-discrete = hlevel

pub data Risk : Type 0 where
  low medium high critical : Risk

pub data PolicyOutcome : Type 0 where
  allow deny confirm : PolicyOutcome

pub data CapabilityTrait : Type 0 where
  package_install network : CapabilityTrait

pub record ApprovalChallenge : Type 0 where
  pub approval_id : String
  pub task_id : String
  pub action_digest : String
  pub phrase : String
  pub expires_at : ℕ

unfoldable pub ApprovalChallenge-discrete : Discrete ApprovalChallenge
ApprovalChallenge-discrete = hlevel (text_dec, ℕ_discrete)

pub record ApprovalResponse : Type 0 where
  pub approval_id : String
  pub phrase : String
