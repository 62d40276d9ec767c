-- ===== src/Tasks/Verified.antt =====
-- What a task of packages/runtime-core/src/task-controller.ts that ends as `verified_success` stands
-- for.
use atlas_mcp.Prelude.{
  String, ◌≡◌, ◌≢◌, refl, Bool, true, false, some, every_of, OnOk, handle-cases, Result, ok, err,
  Option, subst, Bool-cases, inl, inr, arith,
}
use atlas_mcp.Protocol.Failure.{Failure}
use atlas_mcp.Protocol.Json.{Fields}
use atlas_mcp.Protocol.Task.{TaskStatus, TaskRecord}
use atlas_mcp.Guards.Breaker.{Breaker, check}
use atlas_mcp.Tasks.Receipts.{ActionReceipt, Certificate}
use atlas_mcp.Tasks.Certified.{Certified, run-Attests}
use atlas_mcp.Tasks.Store.{
  TaskStore, save_task_execution_result, save_receipt, get_receipt, get_certificate_for_task,
}
use atlas_mcp.Tasks.World.{Setup, World, ended}
use atlas_mcp.Tasks.Begin.{ExecutionResult, Running, certificate_of}
use atlas_mcp.Tasks.Execute.{
  Tried, returned, threw, create_receipt, Ended, action_succeeded, final_status, error_status,
  close, fail,
}
use atlas_mcp.Tasks.Finish.{evidence_for, is_verified, complete, settle, run}

-- A verified success answers with a receipt of a successful action, and evidence that all passed.
abbrev Backed : ExecutionResult → Type 0
Backed e =
    e.task.status ≡ TaskStatus.verified_success
    → (c : Certificate) × (rc : ActionReceipt) × (e.certificate ≡ some c)
      × (e.receipt ≡ some rc)
      × (rc.success ≡ true)
      × (every_of (λ x. x.passed) c.evidence ≡ true)

abbrev BackedEnd : Ended → Type 0
BackedEnd x = OnOk Backed x.answer

-- A verified success has a saved receipt of a successful action, and a saved certificate whose
-- evidence all passed.
abbrev pub Proven : TaskStore → ExecutionResult → Type 0
Proven s e =
    e.task.status ≡ TaskStatus.verified_success
    → (c : Certificate) × (rc : ActionReceipt) × (get_certificate_for_task s e.task.id ≡ some c)
      × (get_receipt s rc.receipt_id ≡ some rc)
      × (e.receipt ≡ some rc)
      × (rc.success ≡ true)
      × (every_of (λ x. x.passed) c.evidence ≡ true)
      × (c.evidence ≡ rc.evidence)

abbrev pub ProvenEnd : Ended → Type 0
ProvenEnd x = OnOk (Proven x.store) x.answer

same_certificate : (a b : Certificate) (o : Option Certificate) → o ≡ some a → o ≡ some b → a ≡ b
same_certificate a b o p q = cc

same_receipt : (a b : ActionReceipt) (o : Option ActionReceipt) → o ≡ some a → o ≡ some b → a ≡ b
same_receipt a b o p q = cc

Backed-saved : (s : TaskStore) (e : ExecutionResult) → Certified s e → Backed e → Proven s e
Backed-saved s e (c, rc, has_c, has_rc, _, agrees, saved_c, _, _, _, saved_rc) backed verified =
    let (c', rc', has_c', has_rc', succeeded, passed) = backed verified in
    (
      c,
      rc,
      saved_c,
      saved_rc,
      has_rc,
      subst (λ x. x.success ≡ true) (same_receipt rc' rc e.receipt has_rc' has_rc) succeeded,
      subst (λ x. every_of (λ y. y.passed) x.evidence ≡ true)
          (same_certificate c' c e.certificate has_c' has_c) passed,
      agrees,
    )

answer-saved :
    (s : TaskStore) (answer : Result Failure ExecutionResult)
    → OnOk (Certified s) answer
    → OnOk Backed answer
    → OnOk (Proven s) answer
answer-saved s (ok e) certified backed = Backed-saved s e certified backed
answer-saved s (err x) certified backed = tt

pub error_status-ne : (a x : Bool) → error_status a x ≢ TaskStatus.verified_success
unfolding error_status
error_status-ne true true = ground arith
error_status-ne true false = ground arith
error_status-ne false x = ground arith

pub final_status-verified :
    (duplicate verified succeeded : Bool)
    → final_status duplicate verified succeeded ≡ TaskStatus.verified_success
    → (duplicate ≡ false) × (verified ≡ true)
unfolding final_status
final_status-verified true v s h = cc
final_status-verified false true s h = (refl, refl)
final_status-verified false false true h = cc
final_status-verified false false false h = cc

module _ (setup : Setup) (w : World) (r : Running) where
  is_verified-evidence :
      (result : Fields)
      → is_verified setup w r result ≡ true
      → (action_succeeded result ≡ true)
        × (every_of (λ x. x.passed) (evidence_for setup w r result) ≡ true)
  unfolding is_verified evidence_for
  is_verified-evidence result h = ground arith

  fail-Backed :
      (b : Breaker) (short_circuited : Bool) (raw : String) (t : TaskRecord) (s : TaskStore)
      → BackedEnd (fail setup w b r short_circuited raw t s)
  unfolding fail close
  fail-Backed b short_circuited raw t s =
      handle-cases BackedEnd (save_receipt s _) _ _ (λ e h. tt)
        λ saved h k. elim (error_status-ne (w.aborted ended) w.exhausted k) [ ]

  complete-Backed :
      (b : Breaker) (result : Fields) (t : TaskRecord) (s : TaskStore)
      → BackedEnd (complete setup w r b result t s)
  unfolding complete close create_receipt certificate_of
  complete-Backed b result t s =
      handle-cases BackedEnd (save_receipt _ _) _ _
        (λ e h. fail-Backed _ false w.constraint_message _ _)
        λ saved h k.
          let (_, verified) = final_status-verified _ (is_verified setup w r result) _ k in
          let (succeeded, passed) = is_verified-evidence result verified in
          (_, _, refl, refl, succeeded, passed)

  settle-Backed : (b : Breaker) (tried : Tried) → BackedEnd (settle setup w r b tried)
  unfolding settle
  settle-Backed b (threw message t s) = fail-Backed b false message t s
  settle-Backed b (returned result t s) =
      handle-cases BackedEnd (save_task_execution_result s _ _) _ _
        (λ e h. fail-Backed b false "task_payload_not_found" _ s)
        λ saved h. complete-Backed b result _ _

  run-Backed : (b : Breaker) (s : TaskStore) → BackedEnd (run setup w r b s)
  unfolding run
  run-Backed b s =
      elim (Bool-cases (check setup.breaker_options b r.classified.target r.started_at)) [
        | inl h ↦ rw (h) (fail-Backed b true _ r.task s)
        | inr h ↦ rw (h) (settle-Backed (w.others_breaker b) _)
      ]

  -- An execution that answers with a task in `verified_success` leaves in the store the receipt that
  -- it answers with, of an action that reported no failure, and the task's certificate, which has the
  -- evidence of that receipt, all of it passed.
  pub run-Proven : (b : Breaker) (s : TaskStore) → ProvenEnd (run setup w r b s)
  run-Proven b s =
      let x = run setup w r b s in
      answer-saved x.store x.answer (run-Attests setup w r b s) (run-Backed b s)
