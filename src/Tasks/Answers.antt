-- ===== src/Tasks/Answers.antt =====
-- How an execution of packages/runtime-core/src/task-controller.ts that has started ends.
use atlas_mcp.Prelude.{
  ℕ, zero, suc, ◌+◌, String, ◌≡◌, refl, Bool, true, false, Option, none, some, get, OnOk, OnOk-at,
  Result, ok, err, handle-cases, Bool-cases, Option-cases, inl, inr,
}
use atlas_mcp.Protocol.Failure.{Failure}
use atlas_mcp.Protocol.Json.{Fields}
use atlas_mcp.Protocol.Operation.{Operation}
use atlas_mcp.Protocol.Task.{TaskRecord}
use atlas_mcp.Guards.Breaker.{Breaker, check}
use atlas_mcp.Tasks.Receipts.{ActionReceipt}
use atlas_mcp.Tasks.Store.{
  TaskStore, Commit, get_idempotency_commit, insert_receipt, insert_commit, save_task, save_receipt,
  get_receipt, save_task_execution_result, commit_idempotency,
}
use atlas_mcp.Tasks.World.{Setup, World, Moment, answered, verifying}
use atlas_mcp.Tasks.Begin.{ExecutionResult, Running}
use atlas_mcp.Tasks.Execute.{
  Tried, returned, threw, try_once, execute_with_retries, Ended, fail, create_receipt,
  attempted_task, attempted_store,
}
use atlas_mcp.Tasks.Finish.{claim_key, complete, settle, run}

-- It did not reject.
abbrev pub Answered : Ended → Type 0
Answered x = (e : ExecutionResult) × (x.answer ≡ ok e)

abbrev pub Fresh : World → TaskStore → Type 0
Fresh w s = get_receipt s w.error_receipt_id ≡ none

-- No other call draws the id that this execution draws for an error's receipt.
abbrev pub Reserved : World → Type 0
Reserved w = (m : Moment) (s : TaskStore) → Fresh w s → Fresh w (w.others m s)

abbrev FreshTried : World → Tried → Type 0
FreshTried w (returned result t s) = Fresh w s
FreshTried w (threw message t s) = Fresh w s

module _ (w : World) (reserved : Reserved w) where
  attempted-Fresh :
      (a : ℕ) (t : TaskRecord) (s : TaskStore) → Fresh w s → Fresh w (attempted_store w a t s)
  unfolding save_task get_receipt
  attempted-Fresh a t s h = reserved (answered a) _ h

  try_once-Fresh :
      (a : ℕ) (t : TaskRecord) (s : TaskStore) (aborted : Bool) (answer : Result String Fields)
      (give_up : Bool) (next : String → Tried)
      → Fresh w s
      → ((m : String) → FreshTried w (next m))
      → FreshTried w (try_once w a t s aborted answer give_up next)
  unfolding try_once
  try_once-Fresh a t s true answer give_up next h k = h
  try_once-Fresh a t s false (ok result) give_up next h k = attempted-Fresh a t s h
  try_once-Fresh a t s false (err m) true next h k = attempted-Fresh a t s h
  try_once-Fresh a t s false (err m) false next h k = k m

  retries-Fresh :
      (op : Operation) (left a : ℕ) (last : String) (t : TaskRecord) (s : TaskStore)
      → Fresh w s
      → FreshTried w (execute_with_retries w op left a last t s)
  unfolding execute_with_retries
  retries-Fresh op zero a last t s h = h
  retries-Fresh op (suc left) a last t s h = try_once-Fresh a t s _ _ _ _ h λ m.
      retries-Fresh op left (a + 1) m (attempted_task w a t) (attempted_store w a t s)
        (attempted-Fresh a t s h)

insert_commit-Fresh :
    (w : World) (there : Option Commit) (s : TaskStore) (key : String) (c : Commit)
    → Fresh w s
    → Fresh w (insert_commit there s key c).0
unfolding get_receipt
insert_commit-Fresh w (some x) s key c h = h
insert_commit-Fresh w none s key c h = h

claim_key-Fresh :
    (w : World) (s : TaskStore) (key : Option String) (c : Commit) (verified : Bool)
    → Fresh w s
    → Fresh w (claim_key s key c verified).0
unfolding claim_key get_receipt commit_idempotency
claim_key-Fresh w s none c verified h = h
claim_key-Fresh w s (some key) c false h = h
claim_key-Fresh w s (some key) c true h =
    insert_commit-Fresh w (get_idempotency_commit s key) s key c h

save_result-Fresh :
    (w : World) (s : TaskStore) (t : TaskRecord) (sealed : String)
    → Fresh w s
    → OnOk (Fresh w) (save_task_execution_result s t sealed)
unfolding save_task_execution_result get_receipt
save_result-Fresh w s t sealed h = elim (Option-cases (get t.id s.payloads)) [
  | inl k ↦ rw (OnOk, k) tt
  | inr (row, k) ↦ rw (OnOk, k) h
]

insert_receipt-ne :
    {A : Type 0} (there : Option ActionReceipt) (s : TaskStore) (rc : ActionReceipt) (e : Failure)
    → there ≡ none
    → insert_receipt there s rc ≡ err e
    → A
insert_receipt-ne none s rc e h k = cc
insert_receipt-ne (some x) s rc e h k = cc

not_saved :
    {A : Type 0} (s : TaskStore) (rc : ActionReceipt) (e : Failure)
    → get_receipt s rc.receipt_id ≡ none
    → save_receipt s rc ≡ err e
    → A
unfolding save_receipt
not_saved s rc e h k = insert_receipt-ne (get_receipt s rc.receipt_id) s rc e h k

module _ (setup : Setup) (w : World) (r : Running) (reserved : Reserved w) where
  fail-Answered :
      (b : Breaker) (short_circuited : Bool) (raw : String) (t : TaskRecord) (s : TaskStore)
      → Fresh w s
      → Answered (fail setup w b r short_circuited raw t s)
  unfolding fail create_receipt
  fail-Answered b short_circuited raw t s h =
      handle-cases Answered (save_receipt s _) _ _ (λ e k. not_saved s _ e h k) λ saved k. (_, refl)

  complete-Answered :
      (b : Breaker) (result : Fields) (t : TaskRecord) (s : TaskStore)
      → Fresh w s
      → Answered (complete setup w r b result t s)
  unfolding complete
  complete-Answered b result t s h =
      handle-cases Answered (save_receipt _ _) _ _
        (λ e k.
          fail-Answered _ false w.constraint_message _ _
            (claim_key-Fresh w s t.idempotency_key _ _ h))
        λ saved k. (_, refl)

  settle-Answered :
      (b : Breaker) (tried : Tried) → FreshTried w tried → Answered (settle setup w r b tried)
  unfolding settle get_receipt
  settle-Answered b (threw message t s) h = fail-Answered b false message t s h
  settle-Answered b (returned result t s) h =
      handle-cases Answered (save_task_execution_result s _ _) _ _
        (λ e k. fail-Answered b false "task_payload_not_found" _ s h)
        λ saved k. complete-Answered b result _ _ (
          reserved verifying saved (
            OnOk-at (Fresh w) (save_task_execution_result s _ _) saved (save_result-Fresh w s _ _ h)
              k))

  -- An execution that has saved its task as running does not reject: whatever the breaker, the adapter,
  -- the verifier and the abort signal do, it returns a task with its receipt and its certificate, if
  -- the id of the error's receipt is its own.
  pub run-Answered : (b : Breaker) (s : TaskStore) → Fresh w s → Answered (run setup w r b s)
  unfolding run
  run-Answered b s h =
      elim (Bool-cases (check setup.breaker_options b r.classified.target r.started_at)) [
        | inl k ↦ rw (k) (fail-Answered b true _ r.task s h)
        | inr k ↦ rw (k) (
            settle-Answered (w.others_breaker b) _
              (retries-Fresh w reserved r.request.operation _ 1 _ r.task s h))
      ]
