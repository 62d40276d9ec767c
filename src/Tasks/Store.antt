-- ===== src/Tasks/Store.antt =====
-- The tables of tasks, payloads, receipts, certificates and idempotency commits of
-- packages/storage-sqlite/src/index.ts.
use atlas_mcp.Prelude.{
  sort, leb, ℕ, String, Bool, true, false, Option, none, some, List, [], ◌∷◌, ◌++◌, Map, get, put,
  ◌==◌, Result, ok, err, filter_of, find_of,
}
use atlas_mcp.Protocol.Failure.{Failure, task_payload_not_found, constraint_failed}
use atlas_mcp.Protocol.Task.{TaskRecord}
use atlas_mcp.Tasks.Receipts.{ActionReceipt, Certificate}

-- A row of `task_payloads`: the sealed request, and the sealed result once there is one.
pub record PayloadRow : Type 0 where
  pub request_payload : String
  pub result_payload : Option String

pub record Commit : Type 0 where
  pub task_id : String
  pub attempt : ℕ
  pub committed_at : ℕ

pub record TaskStore : Type 0 where
  pub tasks : Map TaskRecord
  pub payloads : Map PayloadRow
  pub receipt_rows : List ActionReceipt
  pub certificates : Map Certificate
  pub commits : Map Commit

unfoldable pub empty_tasks : TaskStore
empty_tasks = record {
  tasks = [];
  payloads = [];
  receipt_rows = [];
  certificates = [];
  commits = [];
}

-- `saveTask`
unfoldable pub save_task : TaskStore → TaskRecord → TaskStore
save_task s t = record s { tasks = put t.id t s.tasks }

-- `getTask`
unfoldable pub get_task : TaskStore → String → Option TaskRecord
get_task s id = get id s.tasks

abbrev pub resealed : String → Option PayloadRow → PayloadRow
resealed sealed none = record { request_payload = sealed; result_payload = none }
resealed sealed (some row) = record row { request_payload = sealed }

-- `saveTaskPayload`
unfoldable pub save_task_payload : TaskStore → String → String → TaskStore
save_task_payload s id sealed = record s {
  payloads = put id (resealed sealed (get id s.payloads)) s.payloads;
}

-- `getTaskPayload`
unfoldable pub get_task_payload : TaskStore → String → Option String
get_task_payload s id = elim (get id s.payloads) [
  | none ↦ none
  | some row ↦ some row.request_payload
]

-- `saveTaskExecutionResult`: one transaction, which writes nothing when it throws
unfoldable pub save_task_execution_result :
    TaskStore → TaskRecord → String → Result Failure TaskStore
save_task_execution_result s t sealed = elim (get t.id s.payloads) [
  | none ↦ err task_payload_not_found
  | some row ↦ ok (record s {
    tasks = put t.id t s.tasks;
    payloads = put t.id (record row { result_payload = some sealed }) s.payloads;
  })
]

-- `getTaskResult`
unfoldable pub get_task_result : TaskStore → String → Option String
get_task_result s id = elim (get id s.payloads) [ none ↦ none | some row ↦ row.result_payload ]

-- `getReceipt`
unfoldable pub get_receipt : TaskStore → String → Option ActionReceipt
get_receipt s id = find_of (λ r. r.receipt_id == id) s.receipt_rows

-- `getReceiptsForTask`, `ORDER BY created_at`, which is the time at which a receipt ended
unfoldable pub get_receipts_for_task : TaskStore → String → List ActionReceipt
get_receipts_for_task s id =
    sort (λ a b. leb a.ended_at b.ended_at) (filter_of (λ r. r.task_id == id) s.receipt_rows)

abbrev pub insert_receipt :
    Option ActionReceipt → TaskStore → ActionReceipt → Result Failure TaskStore
insert_receipt (some _) s r = err constraint_failed
insert_receipt none s r = ok (record s { receipt_rows = s.receipt_rows ++ (r ∷ []) })

-- `saveReceipt`: the primary key refuses an id that is there
unfoldable pub save_receipt : TaskStore → ActionReceipt → Result Failure TaskStore
save_receipt s r = insert_receipt (get_receipt s r.receipt_id) s r

-- `saveCertificate`: one certificate for each task, the last one written
unfoldable pub save_certificate : TaskStore → Certificate → TaskStore
save_certificate s c = record s { certificates = put c.task_id c s.certificates }

-- `getCertificateForTask`
unfoldable pub get_certificate_for_task : TaskStore → String → Option Certificate
get_certificate_for_task s id = get id s.certificates

-- `getIdempotencyCommit`
unfoldable pub get_idempotency_commit : TaskStore → String → Option Commit
get_idempotency_commit s key = get key s.commits

abbrev pub insert_commit : Option Commit → TaskStore → String → Commit → TaskStore × Bool
insert_commit (some _) s key c = (s, false)
insert_commit none s key c = (record s { commits = put key c s.commits }, true)

-- `commitIdempotency`: `INSERT OR IGNORE`, and whether it inserted
unfoldable pub commit_idempotency : TaskStore → String → Commit → TaskStore × Bool
commit_idempotency s key c = insert_commit (get_idempotency_commit s key) s key c
