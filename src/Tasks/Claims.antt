-- ===== src/Tasks/Claims.antt =====
-- How `execute` of packages/runtime-core/src/task-controller.ts commits the idempotency key of a task
-- once the verifier has answered.
use atlas_mcp.Prelude.{
  String, ◌≡◌, refl, subst, ap, ◌∙◌, Bool, true, false, Option, none, some, get, get-put_self, OnOk,
  OnOk-at, handle-cases, arith,
}
use atlas_mcp.Protocol.Json.{Fields}
use atlas_mcp.Protocol.Task.{TaskStatus, TaskRecord}
use atlas_mcp.Guards.Breaker.{Breaker}
use atlas_mcp.Tasks.Receipts.{ActionReceipt}
use atlas_mcp.Tasks.Store.{
  TaskStore, Commit, save_task, save_receipt, save_certificate, insert_receipt, get_receipt,
  get_idempotency_commit, commit_idempotency,
}
use atlas_mcp.Tasks.World.{Setup, World, ended}
use atlas_mcp.Tasks.Begin.{ExecutionResult, Running, save_certified}
use atlas_mcp.Tasks.Execute.{Ended, close, fail}
use atlas_mcp.Tasks.Finish.{is_verified, claim_key, complete}
use atlas_mcp.Tasks.Verified.{final_status-verified, error_status-ne}

-- A verified success found the key free in a store `s`, and leaves it committed to its task.
abbrev pub Claimed : TaskStore → String → TaskRecord → TaskStore → ExecutionResult → Type 0
Claimed s key t after e =
    e.task.status ≡ TaskStatus.verified_success
    → (get_idempotency_commit s key ≡ none)
      × ((c : Commit) × (get_idempotency_commit after key ≡ some c) × (c.task_id ≡ t.id))

abbrev pub ClaimedEnd : TaskStore → String → TaskRecord → Ended → Type 0
ClaimedEnd s key t x = OnOk (Claimed s key t x.store) x.answer

commit_idempotency-true :
    (s : TaskStore) (key : String) (c : Commit)
    → (commit_idempotency s key c).1 ≡ true
    → (get_idempotency_commit s key ≡ none)
      × (get_idempotency_commit (commit_idempotency s key c).0 key ≡ some c)
unfolding commit_idempotency get_idempotency_commit
commit_idempotency-true s key c h = ground (arith, get-put_self key c s.commits)

claim_key-free :
    (s : TaskStore) (key : Option String) (k : String) (c : Commit) (verified : Bool)
    → key ≡ some k
    → (claim_key s key c verified).1 ≡ false
    → verified ≡ true
    → (get_idempotency_commit s k ≡ none)
      × (get_idempotency_commit (claim_key s key c verified).0 k ≡ some c)
unfolding claim_key
claim_key-free s none k c verified e h v = cc
claim_key-free s (some key) k c false e h v = cc
claim_key-free s (some key) k c true e h v =
    let same : key ≡ k = cc in
    subst
      (λ x.
        (get_idempotency_commit s x ≡ none)
        × (get_idempotency_commit (commit_idempotency s key c).0 x ≡ some c))
      same (commit_idempotency-true s key c (ground (arith, h)))

insert_receipt-commits :
    (s : TaskStore) (there : Option ActionReceipt) (rc : ActionReceipt)
    → OnOk (λ s'. s'.commits ≡ s.commits) (insert_receipt there s rc)
insert_receipt-commits s (some x) rc = tt
insert_receipt-commits s none rc = refl

save_receipt-commits :
    (s : TaskStore) (rc : ActionReceipt) → OnOk (λ s'. s'.commits ≡ s.commits) (save_receipt s rc)
unfolding save_receipt
save_receipt-commits s rc = insert_receipt-commits s (get_receipt s rc.receipt_id) rc

module _ (setup : Setup) (w : World) (r : Running) where
  pub fail-ClaimedEnd :
      (b : Breaker) (short_circuited : Bool) (raw : String) (t : TaskRecord) (s before : TaskStore)
      (key : String) (u : TaskRecord)
      → ClaimedEnd before key u (fail setup w b r short_circuited raw t s)
  unfolding fail close
  fail-ClaimedEnd b short_circuited raw t s before key u =
      handle-cases (ClaimedEnd before key u) (save_receipt s _) _ _ (λ e h. tt)
        λ saved h k. elim (error_status-ne (w.aborted ended) w.exhausted k) [ ]

  pub complete-ClaimedEnd :
      (b : Breaker) (result : Fields) (t : TaskRecord) (s : TaskStore) (key : String)
      → t.idempotency_key ≡ some key
      → ClaimedEnd s key t (complete setup w r b result t s)
  unfolding complete close get_idempotency_commit save_certified save_task save_certificate
  complete-ClaimedEnd b result t s key h =
      handle-cases (ClaimedEnd s key t) (save_receipt _ _) _ _
        (λ e k. fail-ClaimedEnd _ false w.constraint_message _ _ s key t)
        λ saved k v.
          let (free, verified) = final_status-verified _ (is_verified setup w r result) _ v in
          let (was_free, taken) =
            claim_key-free s t.idempotency_key key _ (is_verified setup w r result) h free
              verified in
          (
            was_free,
            (
              _,
              ap (get key) (OnOk-at _ (save_receipt _ _) saved (save_receipt-commits _ _) k)
                  ∙ taken,
              refl,
            ),
          )
