-- ===== src/Protocol/Task.antt =====
-- Task requests and task records of packages/protocol/src/index.ts.
use atlas_mcp.Prelude.{ℕ, String, List, Option, Bool, []}
use atlas_mcp.Protocol.Effect.{Effect, Risk, PolicyOutcome, CapabilityTrait, ApprovalChallenge}
use atlas_mcp.Protocol.Operation.{Operation}
use atlas_mcp.Protocol.Json.{Json}

-- The constants that a `result_equals` predicate compares with; a number is its printed text.
pub data Scalar : Type 0 where
  text : String → Scalar
  number : String → Scalar
  boolean : Bool → Scalar
  null : Scalar

pub data EvidencePredicate : Type 0 where
  result_equals : (path : String) (value : Scalar) → EvidencePredicate
  result_contains : (path value : String) → EvidencePredicate
  file_exists : (path : String) → EvidencePredicate
  file_absent : (path : String) → EvidencePredicate
  file_hash : (path sha256 : String) → EvidencePredicate
  exit_code : (value : String) → EvidencePredicate
  url_matches : (pattern : String) → EvidencePredicate
  page_contains : (text : String) → EvidencePredicate

pub data PrincipalKind : Type 0 where
  organization human harness agent session subagent service : PrincipalKind

pub record Principal : Type 0 where
  pub kind : PrincipalKind
  pub id : String

pub record Identity : Type 0 where
  pub principal : Principal
  pub on_behalf_of : List Principal

abbrev pub local_identity : Identity
local_identity = record {
  principal = record { kind = PrincipalKind.agent; id = "local" };
  on_behalf_of = [];
}

pub record Budget : Type 0 where
  pub max_steps : ℕ
  pub max_duration_ms : ℕ
  pub max_retries : ℕ

pub record TaskRequest : Type 0 where
  pub goal : String
  pub operation : Operation
  pub constraints : List String
  pub forbidden_effects : List Effect
  pub budget : Budget
  pub required_evidence : List EvidencePredicate
  pub identity : Option Identity

pub record PolicyDecision : Type 0 where
  pub outcome : PolicyOutcome
  pub effect : Effect
  pub risk : Risk
  pub reason : String
  pub policy_version : String
  pub traits : List CapabilityTrait

pub data TaskStatus : Type 0 where
  planned awaiting_approval running verifying verified_success partial failed : TaskStatus
  cancelled waiting_user policy_blocked budget_exhausted recovery_required : TaskStatus

unfoldable pub TaskStatus-discrete : Discrete TaskStatus
TaskStatus-discrete = hlevel

pub record TaskRecord : Type 0 where
  pub id : String
  pub request : TaskRequest
  pub status : TaskStatus
  pub policy_decision : PolicyDecision
  pub idempotency_key : Option String
  pub attempt : Option ℕ
  pub approval : Option ApprovalChallenge
  pub result : Option Json
  pub error : Option String
  pub attempts : Option ℕ
  pub receipt_ids : List String
  pub certificate_id : Option String
  pub created_at : ℕ
  pub updated_at : ℕ
