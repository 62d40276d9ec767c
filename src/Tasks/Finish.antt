-- ===== src/Tasks/Finish.antt =====
-- `execute` of packages/runtime-core/src/task-controller.ts as a whole: from the answer of the
-- adapter to the receipt and the certificate.
use atlas_mcp.Prelude.{
  String, Bool, true, false, not, ◌&&◌, ◌||◌, Option, none, some, or_else, List, [], ◌∷◌, ◌++◌,
  if◌then◌else◌, every_of, ok, err, handle,
}
use atlas_mcp.Protocol.Effect.{ApprovalResponse}
use atlas_mcp.Protocol.Json.{Fields}
use atlas_mcp.Protocol.Task.{TaskStatus, TaskRecord}
use atlas_mcp.Policy.Platform.{concat}
use atlas_mcp.Policy.Evaluate.{no_items}
use atlas_mcp.Guards.Breaker.{Breaker, check, record_failure, record_success}
use atlas_mcp.Tasks.Receipts.{EvidenceItem}
use atlas_mcp.Tasks.Store.{
  TaskStore, Commit, save_task_execution_result, save_receipt, commit_idempotency,
}
use atlas_mcp.Tasks.World.{Setup, World, ended, verifying}
use atlas_mcp.Tasks.Begin.{Running, Begun, finished, started, begin}
use atlas_mcp.Tasks.Execute.{
  Tried, returned, threw, execute_with_retries, maximum_attempts, create_receipt, Ended,
  action_succeeded, completion_evidence, final_status, close, fail,
}

-- The commit of the key of a verified task: the store, and whether another attempt had the key.
unfoldable pub claim_key : TaskStore → Option String → Commit → (verified : Bool) → TaskStore × Bool
claim_key s none c verified = (s, false)
claim_key s (some key) c false = (s, false)
claim_key s (some key) c true =
    let committed = commit_idempotency s key c in (committed.0, not committed.1)

module _ (setup : Setup) (w : World) (r : Running) where
  abbrev pub verifying_task : Fields → TaskRecord → TaskRecord
  verifying_task result t = record t {
    status = TaskStatus.verifying;
    result = some (setup.redaction.redact_result result);
    updated_at = w.clock verifying;
  }

  -- The evidence of an answer; without required evidence it is the success that the adapter reports.
  unfoldable pub evidence_for : Fields → List EvidenceItem
  evidence_for result =
      if no_items r.request.required_evidence
      then completion_evidence (action_succeeded result)
      else w.verify r.request.required_evidence result

  -- `verified`
  unfoldable pub is_verified : Fields → Bool
  is_verified result =
      action_succeeded result
      && (no_items r.request.required_evidence
          || every_of (λ e. e.passed) (w.verify r.request.required_evidence result))

  -- The rest of the `try` block once the verifier has answered.
  unfoldable pub complete : Breaker → Fields → TaskRecord → TaskStore → Ended
  complete b result t s =
      let succeeded = action_succeeded result in
      let target = r.classified.target in
      let breaker =
        if succeeded
        then record_success b target
        else record_failure setup.breaker_options b target (w.clock ended) in
      let commit : Commit = record {
        task_id = t.id;
        attempt = or_else t.attempt 1;
        committed_at = w.clock ended;
      } in
      let claimed = claim_key s t.idempotency_key commit (is_verified result) in
      let evidence = evidence_for result in
      let receipt = create_receipt setup w w.receipt_id r t succeeded result evidence none in
      let status = final_status claimed.1 (is_verified result) succeeded in
      let marked = record t {
        error = if claimed.1 then some "duplicate_attempt_prevented" else t.error;
      } in
      handle (save_receipt claimed.0 receipt)
        (λ e. fail setup w breaker r false w.constraint_message marked claimed.0)
        λ saved.
          let closed =
            close setup w breaker r saved
              (record marked {
                status = status;
                receipt_ids = t.receipt_ids ++ (receipt.receipt_id ∷ []);
                updated_at = w.clock ended;
              })
              receipt receipt.evidence (some result) in
          record { breaker = breaker; store = closed.0; answer = ok closed.1 }

  -- `saveTaskExecutionResult`, then the verifier.
  unfoldable pub settle : Breaker → Tried → Ended
  settle b (threw message t s) = fail setup w b r false message t s
  settle b (returned result t s) =
      let reported = verifying_task result t in
      handle (save_task_execution_result s reported (setup.cipher.seal_result result t.id))
        (λ e. fail setup w b r false "task_payload_not_found" reported s)
        λ saved. complete b result reported (w.others verifying saved)

  -- The whole of the `try`, from the breaker on, for a task that is saved as running.
  unfoldable pub run : Breaker → TaskStore → Ended
  run b s =
      if check setup.breaker_options b r.classified.target r.started_at
      then fail setup w b r true (concat ("circuit_open:" ∷ r.classified.target ∷ [])) r.task s
      else settle (w.others_breaker b) (
          execute_with_retries w r.request.operation
            (maximum_attempts r.classified.effect r.request.budget.max_retries) 1
            "execution_failed_without_error" r.task s)

abbrev pub go_on : Setup → World → Breaker → Begun → Ended
go_on setup w b (finished after result) = record { breaker = b; store = after; answer = ok result }
go_on setup w b (started after r) = run setup w r b after

-- `execute`
unfoldable pub execute :
    Setup → World → Breaker → TaskStore → String → Option ApprovalResponse → Ended
execute setup w b s id approval =
    handle (begin setup w s id approval) (λ e. record { breaker = b; store = s; answer = err e })
      (go_on setup w b)
