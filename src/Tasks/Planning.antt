-- ===== src/Tasks/Planning.antt =====
-- What `plan` of packages/runtime-core/src/task-controller.ts leaves for `execute`.
use atlas_mcp.Prelude.{
  ℕ, String, ◌≡◌, ◌≢◌, refl, ap, true, Option, none, some, get, get-put_self, ok, OnOk, OnOk-then,
  Bool-cases, inl, inr, guard,
}
use atlas_mcp.Protocol.Effect.{PolicyOutcome}
use atlas_mcp.Protocol.Failure.{idempotency_key_invalid, idempotency_attempt_invalid}
use atlas_mcp.Protocol.Task.{TaskRequest, TaskStatus, TaskRecord}
use atlas_mcp.Policy.Classify.{classify}
use atlas_mcp.Policy.Evaluate.{PolicyEvaluation, evaluate}
use atlas_mcp.Tasks.Store.{
  TaskStore, PayloadRow, save_task, get_task, save_task_payload, get_task_payload, resealed,
}
use atlas_mcp.Tasks.World.{Setup}
use atlas_mcp.Tasks.Plan.{
  with_default_evidence, preflight, planned_status, Planned, is_denied, new_task, save_planned,
  plan, key_valid, attempt_valid, effect_contract,
}
use atlas_mcp.Tasks.Begin.{load_request}

-- What is sealed of a request opens to the request, in its own context.
abbrev pub Opens : Setup → TaskRequest → String → Type 0
Opens setup r id = setup.cipher.open_request (setup.cipher.seal_request r id) id ≡ ok r

-- The planned task is stored with its request redacted, and `execute` will load the request as it was
-- given, unless policy blocked the task.
abbrev pub Stored : Setup → String → Planned → Type 0
Stored setup id x =
    (get_task x.store id
      ≡ some (record x.task { request = setup.redaction.redact_request x.task.request }))
    × (x.task.status ≢ TaskStatus.policy_blocked
        → load_request setup x.store id ≡ ok x.task.request)

blocked_status :
    (o : PolicyOutcome) → is_denied o ≡ true → planned_status o ≡ TaskStatus.policy_blocked
unfolding planned_status
blocked_status PolicyOutcome.deny h = refl
blocked_status PolicyOutcome.allow h = cc
blocked_status PolicyOutcome.confirm h = cc

sealed_text :
    (sealed : String) (row : Option PayloadRow) → (resealed sealed row).request_payload ≡ sealed
sealed_text sealed none = refl
sealed_text sealed (some row) = refl

get_task_payload-saved :
    (s : TaskStore) (id sealed : String)
    → get_task_payload (save_task_payload s id sealed) id ≡ some sealed
unfolding save_task_payload get_task_payload
get_task_payload-saved s id sealed =
    rw (get_task_payload, get-put_self id (resealed sealed (get id s.payloads)) s.payloads)
      (ap some (sealed_text sealed (get id s.payloads)))

load-saved :
    (setup : Setup) (s : TaskStore) (id : String) (r : TaskRequest)
    → Opens setup r id
    → load_request setup (save_task_payload s id (setup.cipher.seal_request r id)) id ≡ ok r
unfolding load_request
load-saved setup s id r h = rw (get_task_payload-saved s id (setup.cipher.seal_request r id)) h

module _ (setup : Setup) (id approval_id : String) (now : ℕ) (request : TaskRequest)
    (key : Option String) (attempt : Option ℕ) (opens : Opens setup request id) where
  abbrev task_for : PolicyEvaluation → TaskRecord
  task_for policy = new_task setup id approval_id now request key attempt policy

  save_planned-task :
      (policy : PolicyEvaluation) (s : TaskStore)
      → get_task (save_planned setup id approval_id now request key attempt policy s) id
        ≡ some (task_for policy)
  unfolding save_planned get_task save_task save_task_payload new_task
  save_planned-task policy s = elim (Bool-cases (is_denied policy.decision.outcome)) [
    | inl h ↦ rw (h) (get-put_self id (task_for policy) s.tasks)
    | inr h ↦ rw (h) (get-put_self id (task_for policy) s.tasks)
  ]

  save_planned-load :
      (policy : PolicyEvaluation) (s : TaskStore)
      → planned_status policy.decision.outcome ≢ TaskStatus.policy_blocked
      → load_request setup (save_planned setup id approval_id now request key attempt policy s) id
        ≡ ok request
  unfolding save_planned
  save_planned-load policy s n = elim (Bool-cases (is_denied policy.decision.outcome)) [
    | inl h ↦ elim (n (blocked_status policy.decision.outcome h)) [ ]
    | inr h ↦ rw (h) (load-saved setup (save_task s (task_for policy)) id request opens)
  ]

-- If the cipher opens what it sealed of the request, every planned task is stored under its id with its request
-- redacted, and unless policy blocked it, the request that `execute` will load is the very request
-- that `plan` returned, with its default evidence filled in.
pub plan-Stored :
    (setup : Setup) (id approval_id : String) (now : ℕ) (raw : TaskRequest) (key : Option String)
    (attempt : Option ℕ) (s : TaskStore)
    → Opens setup (with_default_evidence setup.platform raw) id
    → OnOk (Stored setup id) (plan setup id approval_id now raw key attempt s)
unfolding plan new_task
plan-Stored setup id approval_id now raw key attempt s opens =
    let request = with_default_evidence setup.platform raw in
    let policy = evaluate setup.platform setup.policy id approval_id now request in
    let task : TaskRecord = record (new_task setup id approval_id now request key attempt policy) {
      request = request;
    } in
    let planned : Planned = record {
      store = save_planned setup id approval_id now request key attempt policy s;
      task = task;
      contract = effect_contract task (classify setup.platform request.operation);
    } in
    let stored : Stored setup id planned = (
      save_planned-task setup id approval_id now request key attempt opens policy s,
      save_planned-load setup id approval_id now request key attempt opens policy s,
    ) in
    OnOk-then (Stored setup id) (guard (key_valid key) idempotency_key_invalid) _ λ _ _.
      OnOk-then (Stored setup id) (guard (attempt_valid attempt) idempotency_attempt_invalid) _
        λ _ _.
          OnOk-then (Stored setup id) (preflight setup approval_id now request) (λ _. ok planned)
            λ _ _. stored
