-- ===== src/Tasks/Receipts.antt =====
-- Receipts and certificates of packages/receipt-schema/src/index.ts, `delegationChain` of
-- packages/protocol/src/index.ts, and `certificateResult` of
-- packages/runtime-core/src/task-controller.ts.
use atlas_mcp.Prelude.{ℕ, String, Bool, Option, List, [], ◌∷◌}
use atlas_mcp.Protocol.Effect.{Effect, PolicyOutcome}
use atlas_mcp.Protocol.Operation.{Operation}
use atlas_mcp.Protocol.Task.{Principal, Identity, TaskStatus}
use atlas_mcp.Protocol.Json.{Json}
use atlas_mcp.Policy.Platform.{concat}
use atlas_mcp.Policy.Grants.{principal_ref}

-- Less the source and the digest of an item, which nothing reads.
pub record EvidenceItem : Type 0 where
  pub type : String
  pub passed : Bool
  pub summary : String

pub data CertificateResult : Type 0 where
  verified_success partial failed cancelled : CertificateResult
  waiting_approval waiting_user policy_blocked budget_exhausted : CertificateResult

-- Less the schema version and the redaction marks.
pub record ActionReceipt : Type 0 where
  pub receipt_id : String
  pub task_id : String
  pub capability : String
  pub principal : String
  pub effect : Effect
  pub outcome : PolicyOutcome
  pub policy_version : String
  pub approval_id : Option String
  pub target : String
  pub input : Operation  -- the source keeps its SHA-256 digest
  pub started_at : ℕ
  pub ended_at : ℕ
  pub success : Bool
  pub observed_effect : Json
  pub evidence : List EvidenceItem
  pub error : Option String

-- Less the schema version and the digest.
pub record Certificate : Type 0 where
  pub certificate_id : String
  pub task_id : String
  pub goal : String
  pub result : CertificateResult
  pub policy_version : String
  pub receipt_ids : List String
  pub evidence : List EvidenceItem
  pub created_at : ℕ

-- `certificateResult`, on the status of the task
unfoldable pub certificate_result : TaskStatus → CertificateResult
certificate_result TaskStatus.verified_success = CertificateResult.verified_success
certificate_result TaskStatus.partial = CertificateResult.partial
certificate_result TaskStatus.cancelled = CertificateResult.cancelled
certificate_result TaskStatus.awaiting_approval = CertificateResult.waiting_approval
certificate_result TaskStatus.waiting_user = CertificateResult.waiting_user
certificate_result TaskStatus.policy_blocked = CertificateResult.policy_blocked
certificate_result TaskStatus.budget_exhausted = CertificateResult.budget_exhausted
certificate_result _ = CertificateResult.failed

unfoldable pub chain_of : List Principal → Principal → String
chain_of [] p = principal_ref p
chain_of (q ∷ qs) p = concat (principal_ref q ∷ "/" ∷ chain_of qs p ∷ [])

-- `delegationChain`
unfoldable pub delegation_chain : Identity → String
delegation_chain who = chain_of who.on_behalf_of who.principal
