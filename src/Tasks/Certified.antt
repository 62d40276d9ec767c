-- ===== src/Tasks/Certified.antt =====
-- What the receipt and the certificate of an execution in
-- packages/runtime-core/src/task-controller.ts attest.
use atlas_mcp.Prelude.{
  String, ◌≡◌, inl, inr, refl, Bool, true, false, Option, none, some, List, [], ◌∷◌, ◌++◌, put,
  get-put_self, OnOk, OnOk-at, arith, find_of, Bool-cases, text_eq_refl, handle-cases,
}
use atlas_mcp.Protocol.Json.{Fields}
use atlas_mcp.Protocol.Task.{TaskRecord}
use atlas_mcp.Guards.Breaker.{Breaker, check}
use atlas_mcp.Tasks.Receipts.{ActionReceipt, Certificate, certificate_result}
use atlas_mcp.Tasks.Store.{
  TaskStore, save_task, get_task, insert_receipt, save_receipt, get_receipt, save_certificate,
  get_certificate_for_task, save_task_execution_result,
}
use atlas_mcp.Tasks.World.{Setup, World}
use atlas_mcp.Tasks.Begin.{ExecutionResult, Running, certificate_of, certified_task, save_certified}
use atlas_mcp.Tasks.Execute.{Tried, returned, threw, Ended, close, fail}
use atlas_mcp.Tasks.Finish.{complete, settle, run}

-- The certificate is saved, it states the status that the task is saved with, and the receipt of the
-- result, which carries the same evidence, is saved and listed in it.
abbrev pub Certified : TaskStore → ExecutionResult → Type 0
Certified s e =
    (c : Certificate) × (rc : ActionReceipt) × (e.certificate ≡ some c)
    × (e.receipt ≡ some rc)
    × (c.result ≡ certificate_result e.task.status)
    × (c.evidence ≡ rc.evidence)
    × (get_certificate_for_task s e.task.id ≡ some c)
    × (get_task s e.task.id ≡ some e.task)
    × (e.task.certificate_id ≡ some c.certificate_id)
    × (c.receipt_ids ≡ e.task.receipt_ids)
    × (get_receipt s rc.receipt_id ≡ some rc)

abbrev pub Attests : Ended → Type 0
Attests ended = OnOk (Certified ended.store) ended.answer

find_of-last {ℓ} :
    {A : Type ℓ} (p : A → Bool) (x : A) (xs : List A)
    → find_of p xs ≡ none
    → p x ≡ true
    → find_of p (xs ++ (x ∷ [])) ≡ some x
find_of-last p x [] h e = ground arith
find_of-last p x (y ∷ xs) h e = ground (arith, find_of-last p x xs)

insert_receipt-get :
    (s : TaskStore) (rc : ActionReceipt) (there : Option ActionReceipt)
    → get_receipt s rc.receipt_id ≡ there
    → OnOk (λ s'. get_receipt s' rc.receipt_id ≡ some rc) (insert_receipt there s rc)
unfolding get_receipt
insert_receipt-get s rc (some x) h = tt
insert_receipt-get s rc none h = find_of-last _ rc s.receipt_rows h (text_eq_refl rc.receipt_id)

save_receipt-get :
    (s : TaskStore) (rc : ActionReceipt)
    → OnOk (λ s'. get_receipt s' rc.receipt_id ≡ some rc) (save_receipt s rc)
unfolding save_receipt
save_receipt-get s rc = insert_receipt-get s rc (get_receipt s rc.receipt_id) refl

module _ (setup : Setup) (w : World) (r : Running) where
  close-Certified :
      (b : Breaker) (s : TaskStore) (t : TaskRecord) (rc : ActionReceipt) (output : Option Fields)
      → get_receipt s rc.receipt_id ≡ some rc
      → Certified
          (close setup w b r s t rc rc.evidence output).0
          (close setup w b r s t rc rc.evidence output).1
  unfolding close certificate_of save_certified get_certificate_for_task get_task save_task
      save_certificate get_receipt
  close-Certified b s t rc output h = (
    certificate_of w t rc.evidence,
    rc,
    refl,
    refl,
    refl,
    refl,
    get-put_self t.id (certificate_of w t rc.evidence) s.certificates,
    get-put_self t.id (certified_task w t) (put t.id t s.tasks),
    refl,
    refl,
    h,
  )

  fail-Attests :
      (b : Breaker) (short_circuited : Bool) (raw : String) (t : TaskRecord) (s : TaskStore)
      → Attests (fail setup w b r short_circuited raw t s)
  unfolding fail
  fail-Attests b short_circuited raw t s =
      handle-cases Attests (save_receipt s _) _ _ (λ e h. tt)
        λ saved h.
          close-Certified _ saved _ _ none
            (OnOk-at _ (save_receipt s _) saved (save_receipt-get s _) h)

  complete-Attests :
      (b : Breaker) (result : Fields) (t : TaskRecord) (s : TaskStore)
      → Attests (complete setup w r b result t s)
  unfolding complete
  complete-Attests b result t s =
      handle-cases Attests (save_receipt _ _) _ _
        (λ e h. fail-Attests _ false w.constraint_message _ _)
        λ saved h.
          close-Certified _ saved _ _ (some result)
            (OnOk-at _ (save_receipt _ _) saved (save_receipt-get _ _) h)

  settle-Attests : (b : Breaker) (tried : Tried) → Attests (settle setup w r b tried)
  unfolding settle
  settle-Attests b (threw message t s) = fail-Attests b false message t s
  settle-Attests b (returned result t s) =
      handle-cases Attests (save_task_execution_result s _ _) _ _
        (λ e h. fail-Attests b false "task_payload_not_found" _ s)
        λ saved h. complete-Attests b result _ _

  -- An execution that reached the adapter, or was stopped by the breaker, and that answers, leaves a
  -- saved receipt and a saved certificate: the certificate's result is that of the status which the
  -- task is saved with, its evidence is that of the receipt, and it lists the task's receipts.
  pub run-Attests : (b : Breaker) (s : TaskStore) → Attests (run setup w r b s)
  unfolding run
  run-Attests b s =
      elim (Bool-cases (check setup.breaker_options b r.classified.target r.started_at)) [
        | inl h ↦ rw (h) (fail-Attests b true _ r.task s)
        | inr h ↦ rw (h) (settle-Attests (w.others_breaker b) _)
      ]
