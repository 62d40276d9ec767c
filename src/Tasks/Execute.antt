-- ===== src/Tasks/Execute.antt =====
-- `execute` of packages/runtime-core/src/task-controller.ts from the call of the adapter on, with
-- `executeWithRetries` and `createReceipt`. What other calls do to the store while this one waits is
-- `World.others`.
use atlas_mcp.Prelude.{
  ℕ, zero, suc, ◌+◌, String, Bool, true, false, not, ◌&&◌, ◌||◌, Option, none, some, or_else, List,
  [], ◌∷◌, ◌++◌, ltb, nat_eq, if◌then◌else◌, Result, ok, err, handle,
}
use atlas_mcp.Protocol.Effect.{Effect}
use atlas_mcp.Protocol.Failure.{Failure}
use atlas_mcp.Protocol.Json.{Json, Fields, end, field, field_of, set_field}
use atlas_mcp.Protocol.Operation.{Operation}
use atlas_mcp.Protocol.Task.{local_identity, TaskStatus, TaskRecord}
use atlas_mcp.Guards.Breaker.{Breaker, record_failure}
use atlas_mcp.Tasks.Receipts.{EvidenceItem, ActionReceipt, delegation_chain}
use atlas_mcp.Tasks.Store.{TaskStore, save_task, save_receipt}
use atlas_mcp.Tasks.World.{Setup, World, ended, attempt, answered}
use atlas_mcp.Tasks.Begin.{ExecutionResult, Running, certificate_of, certified_task, save_certified}

-- What `executeWithRetries` ends in: a result, or the message of an error.
pub data Tried : Type 0 where
  returned : Fields → TaskRecord → TaskStore → Tried
  threw : String → TaskRecord → TaskStore → Tried

abbrev pub attempted_task : World → ℕ → TaskRecord → TaskRecord
attempted_task w a t = record t { attempts = some a; updated_at = w.clock (attempt a) }

-- `{ ...result, execution: { attempts, retried } }`; `number_text` prints a number
unfoldable pub with_execution : (ℕ → String) → ℕ → Fields → Fields
with_execution number_text a result =
    set_field "execution"
      (Json.object (
        field "attempts" (Json.number (number_text a))
          (field "retried" (Json.boolean (ltb 1 a)) end)))
      result

-- The store after attempt `a`.
abbrev pub attempted_store : World → ℕ → TaskRecord → TaskStore → TaskStore
attempted_store w a t s = w.others (answered a) (save_task s (attempted_task w a t))

-- One turn of the loop: whether the signal is aborted before the attempt, what the adapter answers,
-- whether the error is thrown on, because this is the last attempt or the signal is aborted by then,
-- and the next turn.
unfoldable pub try_once :
    World
    → ℕ
    → TaskRecord
    → TaskStore
    → (aborted : Bool) → Result String Fields
    → (give_up : Bool) → (String → Tried)
    → Tried
try_once w a t s true answer give_up next = threw w.reason t s
try_once w a t s false (ok result) give_up next =
    returned (with_execution w.number_text a result) (attempted_task w a t)
      (attempted_store w a t s)
try_once w a t s false (err message) true next =
    threw message (attempted_task w a t) (attempted_store w a t s)
try_once w a t s false (err message) false next = next message

-- `executeWithRetries` for an operation, with `left` attempts left, before attempt `a`
unfoldable pub execute_with_retries :
    World → Operation → ℕ → ℕ → String → TaskRecord → TaskStore → Tried
execute_with_retries w op zero a last t s = threw last t s
execute_with_retries w op (suc left) a last t s =
    try_once w a t s (w.aborted (attempt a)) (w.adapter op a)
      (nat_eq left 0 || w.aborted (answered a))
      λ message.
        execute_with_retries w op left (a + 1) message (attempted_task w a t)
          (attempted_store w a t s)

-- `maximumAttempts`
unfoldable pub maximum_attempts : Effect → ℕ → ℕ
maximum_attempts Effect.read max_retries = max_retries + 1
maximum_attempts Effect.mutate max_retries = 1
maximum_attempts Effect.destructive max_retries = 1

-- `createReceipt`, less the redaction marks; `receipt_id` is a fresh UUID
unfoldable pub create_receipt :
    Setup
    → World
    → String
    → Running
    → TaskRecord
    → Bool
    → Fields
    → List EvidenceItem
    → Option String
    → ActionReceipt
create_receipt setup w receipt_id r t success result evidence error = record {
  receipt_id = receipt_id;
  task_id = t.id;
  capability = r.classified.capability;
  principal = delegation_chain (or_else r.request.identity local_identity);
  effect = r.classified.effect;
  outcome = t.policy_decision.outcome;
  policy_version = t.policy_decision.policy_version;
  approval_id = elim r.approval [ none ↦ none | some a ↦ some a.approval_id ];
  target = r.classified.target;
  input = r.request.operation;
  started_at = r.started_at;
  ended_at = w.clock ended;
  success = success;
  observed_effect = setup.redaction.redact_result result;
  evidence = evidence;
  error = error;
}

-- How an execution ends: the breaker and the store as they are left, and the answer or the error
-- that `execute` rejects with.
pub record Ended : Type 0 where
  pub breaker : Breaker
  pub store : TaskStore
  pub answer : Result Failure ExecutionResult

-- `result.success === undefined || result.success === true`
unfoldable pub action_succeeded : Fields → Bool
action_succeeded result = elim (field_of "success" result) [
  | none ↦ true
  | some (Json.boolean b) ↦ b
  | some _ ↦ false
]

abbrev pub completion_evidence : Bool → List EvidenceItem
completion_evidence true =
    record {
      type = "operation_completed";
      passed = true;
      summary = "read-only operation completed";
    }
    ∷ []
completion_evidence false =
    record { type = "operation_completed"; passed = false; summary = "operation reported failure" }
    ∷ []

abbrev pub error_evidence : String → List EvidenceItem
error_evidence message = record { type = "execution_error"; passed = false; summary = message } ∷ []

-- The status of a task whose adapter answered.
unfoldable pub final_status : (duplicate verified succeeded : Bool) → TaskStatus
final_status true verified succeeded = TaskStatus.cancelled
final_status false true succeeded = TaskStatus.verified_success
final_status false false true = TaskStatus.partial
final_status false false false = TaskStatus.failed

-- The status of a task whose execution threw.
unfoldable pub error_status : (aborted exhausted : Bool) → TaskStatus
error_status true true = TaskStatus.budget_exhausted
error_status true false = TaskStatus.cancelled
error_status false exhausted = TaskStatus.failed

module _ (setup : Setup) (w : World) (b : Breaker) (r : Running) where
  -- `saveReceipt`, the last `saveTask` and the certificate, for a task with its receipt pushed
  unfoldable pub close :
      TaskStore
      → TaskRecord
      → ActionReceipt
      → List EvidenceItem
      → Option Fields
      → TaskStore × ExecutionResult
  close s t receipt evidence output = (
    save_certified w (save_task s t) t evidence,
    record {
      task = certified_task w t;
      output = output;
      receipt = some receipt;
      certificate = some (certificate_of w t evidence);
    },
  )

  -- The `catch` block.
  unfoldable pub fail : (short_circuited : Bool) → String → TaskRecord → TaskStore → Ended
  fail short_circuited raw t s =
      let aborted = w.aborted ended in
      let message =
        if w.exhausted then "task_budget_exhausted" else setup.redaction.redact_message raw in
      let breaker =
        if not short_circuited && (not aborted || w.exhausted)
        then record_failure setup.breaker_options b r.classified.target (w.clock ended)
        else b in
      let failed = record t {
        status = error_status aborted w.exhausted;
        error = some message;
        updated_at = w.clock ended;
      } in
      let receipt =
        create_receipt setup w w.error_receipt_id r failed false end (error_evidence message)
          (some message) in
      handle (save_receipt s receipt) (λ e. record { breaker = breaker; store = s; answer = err e })
        λ saved.
          let closed =
            close saved
              (record failed { receipt_ids = failed.receipt_ids ++ (receipt.receipt_id ∷ []) })
              receipt receipt.evidence none in
          record { breaker = breaker; store = closed.0; answer = ok closed.1 }
