-- ===== src/Tasks/Begin.antt =====
-- `execute` of packages/runtime-core/src/task-controller.ts up to its first `await`, with
-- `loadRequest`, `createAndSaveCertificate` and `finishWithoutReceipt`. The file reads one clock
-- value where the source reads the clock twice in a row.
use atlas_mcp.Prelude.{
  ℕ, String, Bool, true, false, not, Option, none, some, is_none, List, [], ◌∷◌, ◌==◌,
  if◌then◌else◌, Result, ok, err, ◌>>=◌, ◌>>◌, guard, require,
}
use atlas_mcp.Protocol.Effect.{PolicyOutcome, ApprovalChallenge, ApprovalResponse}
use atlas_mcp.Protocol.Failure.{
  Failure, task_payload_not_found, task_not_executable, approval_action_digest_mismatch,
}
use atlas_mcp.Protocol.Json.{Fields}
use atlas_mcp.Protocol.Task.{TaskRequest, PolicyDecision, TaskStatus, TaskRecord}
use atlas_mcp.Policy.Classify.{Classified, classify}
use atlas_mcp.Policy.Approval.{validate_approval}
use atlas_mcp.Policy.Evaluate.{evaluate}
use atlas_mcp.Tasks.Receipts.{EvidenceItem, ActionReceipt, Certificate, certificate_result}
use atlas_mcp.Tasks.Store.{
  TaskStore, save_task, get_task_payload, get_idempotency_commit, save_certificate,
}
use atlas_mcp.Tasks.World.{Setup, World, entered, checked, certified}
use atlas_mcp.Tasks.Plan.{status, is_denied}

pub record ExecutionResult : Type 0 where
  pub task : TaskRecord
  pub output : Option Fields
  pub receipt : Option ActionReceipt
  pub certificate : Option Certificate

-- A task that `execute` has saved as running.
pub record Running : Type 0 where
  pub task : TaskRecord
  pub request : TaskRequest
  pub classified : Classified
  pub started_at : ℕ
  pub approval : Option ApprovalResponse

-- Where `execute` stands when it first waits: it returned, or the task runs.
pub data Begun : Type 0 where
  finished : TaskStore → ExecutionResult → Begun
  started : TaskStore → Running → Begun

-- `loadRequest`
unfoldable pub load_request : Setup → TaskStore → String → Result Failure TaskRequest
load_request setup s id = do
  sealed ← require (get_task_payload s id) task_payload_not_found
  setup.cipher.open_request sealed id

-- The certificate of `createCertificate`, less its digest
unfoldable pub certificate_of : World → TaskRecord → List EvidenceItem → Certificate
certificate_of w t evidence = record {
  certificate_id = w.certificate_id;
  task_id = t.id;
  goal = t.request.goal;
  result = certificate_result t.status;
  policy_version = t.policy_decision.policy_version;
  receipt_ids = t.receipt_ids;
  evidence = evidence;
  created_at = w.clock certified;
}

abbrev pub certified_task : World → TaskRecord → TaskRecord
certified_task w t = record t {
  certificate_id = some w.certificate_id;
  updated_at = w.clock certified;
}

-- `createAndSaveCertificate`, on the store
unfoldable pub save_certified : World → TaskStore → TaskRecord → List EvidenceItem → TaskStore
save_certified w s t evidence =
    save_task (save_certificate s (certificate_of w t evidence)) (certified_task w t)

-- `finishWithoutReceipt`
unfoldable pub finish_without_receipt : World → TaskStore → TaskRecord → List EvidenceItem → Begun
finish_without_receipt w s t evidence = finished (save_certified w s t evidence) (record {
  task = certified_task w t;
  output = none;
  receipt = none;
  certificate = some (certificate_of w t evidence);
})

abbrev pub is_blocked : TaskStatus → Bool
is_blocked TaskStatus.policy_blocked = true
is_blocked _ = false

abbrev pub is_waiting : TaskStatus → Bool
is_waiting TaskStatus.planned = true
is_waiting TaskStatus.awaiting_approval = true
is_waiting _ = false

-- The idempotency key of the task is already committed.
unfoldable pub is_duplicate : TaskStore → Option String → Bool
is_duplicate s none = false
is_duplicate s (some key) = not (is_none (get_idempotency_commit s key))

abbrev pub same_digest : Option ApprovalChallenge → Option ApprovalChallenge → Bool
same_digest (some planned) (some now) = planned.action_digest == now.action_digest
same_digest _ _ = false

-- The approval that an operation to confirm needs: the digest of the challenge that was planned is
-- that of the operation, and the response answers the challenge.
unfoldable pub check_approval :
    World
    → TaskRecord
    → Option ApprovalResponse
    → PolicyOutcome
    → Option ApprovalChallenge
    → Result Failure (Unit {0})
check_approval w t approval PolicyOutcome.confirm challenge = do
  guard (same_digest t.approval challenge) approval_action_digest_mismatch
  validate_approval t.approval approval (w.clock entered)
check_approval w t approval _ challenge = ok tt

abbrev pub blocked_task : World → TaskRecord → PolicyDecision → TaskRecord
blocked_task w t decision = record t {
  status = TaskStatus.policy_blocked;
  policy_decision = decision;
  updated_at = w.clock entered;
}

abbrev pub duplicate_task : World → TaskRecord → TaskRecord
duplicate_task w t = record t {
  status = TaskStatus.cancelled;
  error = some "duplicate_attempt_prevented";
  updated_at = w.clock entered;
}

abbrev pub running_task : World → TaskRecord → PolicyDecision → TaskRecord
running_task w t decision = record t {
  status = TaskStatus.running;
  policy_decision = decision;
  updated_at = w.clock checked;
}

abbrev pub duplicate_evidence : List EvidenceItem
duplicate_evidence =
    record { type = "idempotency"; passed = false; summary = "duplicate_attempt_prevented" } ∷ []

module _ (setup : Setup) (w : World) (s : TaskStore) (approval : Option ApprovalResponse) where
  -- The policy check at execution, for a task and its opened request.
  unfoldable pub recheck : TaskRecord → TaskRequest → Result Failure Begun
  recheck t request =
      let rechecked =
        evaluate setup.platform setup.policy t.id w.approval_id (w.clock entered) request in
      if is_denied rechecked.decision.outcome
      then (let blocked = blocked_task w t rechecked.decision in
          ok (finish_without_receipt w (save_task s blocked) blocked []))
      else (check_approval w t approval rechecked.decision.outcome rechecked.challenge
          >> (let running = running_task w t rechecked.decision in
              ok (
                started (save_task s running) (record {
                  task = running;
                  request = request;
                  classified = classify setup.platform request.operation;
                  started_at = w.clock checked;
                  approval = approval;
                }))))

  unfoldable pub begin_task : String → TaskRecord → Result Failure Begun
  begin_task id t =
      if is_blocked t.status
      then ok (finished s (record { task = t; output = none; receipt = none; certificate = none }))
      else if not (is_waiting t.status)
      then err (task_not_executable t.status)
      else if is_duplicate s t.idempotency_key
      then ok (
          finish_without_receipt w (save_task s (duplicate_task w t)) (duplicate_task w t)
            duplicate_evidence)
      else (load_request setup s id >>= recheck t)

-- `execute` until the adapter is called
unfoldable pub begin :
    Setup → World → TaskStore → String → Option ApprovalResponse → Result Failure Begun
begin setup w s id approval = status s id >>= begin_task setup w s approval id
