-- ===== src/Tasks/Plan.antt =====
-- `plan`, `preflight` and `status` of packages/runtime-core/src/task-controller.ts, and the effect
-- contract of packages/protocol/src/index.ts that `plan` returns. A request is one that
-- `TaskRequestSchema.parse` returned.
use Prim.Native.Char.{Char, code}
use Prim.Native.String as Text
use atlas_mcp.Prelude.{
  ℕ, suc, String, Bool, true, false, ◌&&◌, ◌||◌, Option, none, some, or_else, List, [], leb, nat_eq,
  if◌then◌else◌, some_of, holds, Result, ok, ◌>>=◌, ◌>>◌, guard, require,
}
use atlas_mcp.Protocol.Effect.{Effect, Risk, PolicyOutcome, CapabilityTrait, ApprovalChallenge}
use atlas_mcp.Protocol.Failure.{
  Failure, idempotency_key_invalid, idempotency_attempt_invalid, operation_capability_unavailable,
  task_not_found,
}
use atlas_mcp.Protocol.Operation.{Operation, OperationKind, OperationKind-discrete, kind_of}
use atlas_mcp.Protocol.Task.{
  EvidencePredicate, Identity, local_identity, Budget, TaskRequest, PolicyDecision, TaskStatus,
  TaskRecord,
}
use atlas_mcp.Policy.Platform.{Platform}
use atlas_mcp.Policy.Classify.{Classified, classify}
use atlas_mcp.Policy.Evidence.{default_evidence}
use atlas_mcp.Policy.Evaluate.{PolicyEvaluation, no_items, evaluate}
use atlas_mcp.Tasks.Store.{TaskStore, save_task, get_task, save_task_payload}
use atlas_mcp.Tasks.World.{Setup}

-- `withDefaultEvidence`
unfoldable pub with_default_evidence : Platform → TaskRequest → TaskRequest
with_default_evidence p request =
    if no_items request.required_evidence
    then record request { required_evidence = default_evidence p request.operation }
    else request

abbrev pub is_hex : Char → Bool
is_hex c = (leb 48 (code c) && leb (code c) 57) || (leb 97 (code c) && leb (code c) 102)

abbrev pub all_hex : String → Bool
all_hex Text.[] = true
all_hex (Text.◌∷◌ c s) = is_hex c && all_hex s

abbrev pub text_length : String → ℕ
text_length Text.[] = 0
text_length (Text.◌∷◌ c s) = suc (text_length s)

-- `/^[a-f0-9]{64}$/`, or no key
unfoldable pub key_valid : Option String → Bool
key_valid none = true
key_valid (some key) = nat_eq (text_length key) 64 && all_hex key

unfoldable pub attempt_valid : Option ℕ → Bool
attempt_valid none = true
attempt_valid (some n) = leb 1 n

abbrev pub can_run : Option (List OperationKind) → OperationKind → Bool
can_run none k = true
can_run (some ks) k = some_of (λ x. holds (OperationKind-discrete x k)) ks

-- `preflight`, at the time `now`
unfoldable pub preflight :
    Setup → (approval_id : String) → ℕ → TaskRequest → Result Failure PolicyDecision
preflight setup approval_id now raw = do
  let request = with_default_evidence setup.platform raw
  guard (can_run setup.capabilities (kind_of request.operation))
      (operation_capability_unavailable (kind_of request.operation))
  ok
      (evaluate setup.platform setup.policy "00000000-0000-4000-8000-000000000000" approval_id now
        request).decision

pub record EffectContract : Type 0 where
  pub task_id : String
  pub identity : Identity
  pub capability : String
  pub operation : Operation
  pub effect : Effect
  pub risk : Risk
  pub target : String
  pub traits : List CapabilityTrait
  pub forbidden_effects : List Effect
  pub postconditions : List EvidencePredicate
  pub budget : Budget
  pub idempotency_key : Option String
  pub policy : PolicyDecision
  pub authorization : Option ApprovalChallenge
  pub goal : String

-- `effectContract`
unfoldable pub effect_contract : TaskRecord → Classified → EffectContract
effect_contract t c = record {
  task_id = t.id;
  identity = or_else t.request.identity local_identity;
  capability = c.capability;
  operation = t.request.operation;
  effect = t.policy_decision.effect;
  risk = t.policy_decision.risk;
  target = c.target;
  traits = t.policy_decision.traits;
  forbidden_effects = t.request.forbidden_effects;
  postconditions = t.request.required_evidence;
  budget = t.request.budget;
  idempotency_key = t.idempotency_key;
  policy = t.policy_decision;
  authorization = t.approval;
  goal = t.request.goal;
}

-- The status that a planned task starts in.
unfoldable pub planned_status : PolicyOutcome → TaskStatus
planned_status PolicyOutcome.deny = TaskStatus.policy_blocked
planned_status PolicyOutcome.confirm = TaskStatus.awaiting_approval
planned_status PolicyOutcome.allow = TaskStatus.planned

pub record Planned : Type 0 where
  pub store : TaskStore
  pub task : TaskRecord  -- with the request as it was given
  pub contract : EffectContract

abbrev pub is_denied : PolicyOutcome → Bool
is_denied PolicyOutcome.deny = true
is_denied _ = false

module _ (setup : Setup) (id approval_id : String) (now : ℕ) (request : TaskRequest)
    (key : Option String) (attempt : Option ℕ) where
  -- The record of a new task, with the request redacted.
  unfoldable pub new_task : PolicyEvaluation → TaskRecord
  new_task policy = record {
    id = id;
    request = setup.redaction.redact_request request;
    status = planned_status policy.decision.outcome;
    policy_decision = policy.decision;
    idempotency_key = key;
    attempt = attempt;
    approval = policy.challenge;
    result = none;
    error = none;
    attempts = none;
    receipt_ids = [];
    certificate_id = none;
    created_at = now;
    updated_at = now;
  }

  -- The saves of `plan`: the payload is kept only for a task that policy did not block.
  unfoldable pub save_planned : PolicyEvaluation → TaskStore → TaskStore
  save_planned policy s =
      let saved = save_task s (new_task policy) in
      if is_denied policy.decision.outcome
      then saved
      else save_task_payload saved id (setup.cipher.seal_request request id)

-- `plan`, with the id that it draws, all readings of the clock as one
unfoldable pub plan :
    Setup
    → (id approval_id : String) → ℕ
    → TaskRequest
    → Option String
    → Option ℕ
    → TaskStore
    → Result Failure Planned
plan setup id approval_id now raw key attempt s = do
  let request = with_default_evidence setup.platform raw
  guard (key_valid key) idempotency_key_invalid
  guard (attempt_valid attempt) idempotency_attempt_invalid
  checked ← preflight setup approval_id now request
  let policy = evaluate setup.platform setup.policy id approval_id now request
  let task = record (new_task setup id approval_id now request key attempt policy) {
    request = request;
  }
  ok (record {
    store = save_planned setup id approval_id now request key attempt policy s;
    task = task;
    contract = effect_contract task (classify setup.platform request.operation);
  })

-- `status`
unfoldable pub status : TaskStore → String → Result Failure TaskRecord
status s id = require (get_task s id) task_not_found
