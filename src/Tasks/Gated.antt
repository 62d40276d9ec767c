-- ===== src/Tasks/Gated.antt =====
-- When `execute` of packages/runtime-core/src/task-controller.ts lets a task reach the adapter.
use atlas_mcp.Prelude.{
  ℕ, ◌<◌, String, ◌≡◌, ◌⊎◌, inl, inr, refl, sym, subst, true, false, not, Option, none, some,
  get-put_self, ok, err, OnOk, OnOk-at, OnOk-then, OnOk-if, require-eq-ok, arith, guard, ◌>>◌,
}
use atlas_mcp.Protocol.Effect.{PolicyOutcome, ApprovalChallenge, ApprovalResponse}
use atlas_mcp.Protocol.Failure.{
  task_not_found, task_not_executable, approval_action_digest_mismatch,
}
use atlas_mcp.Protocol.Task.{TaskRequest, TaskStatus, TaskRecord}
use atlas_mcp.Policy.Approval.{validate_approval, validate_approval_iff}
use atlas_mcp.Policy.Evaluate.{challenge_for, evaluate}
use atlas_mcp.Policy.Evaluate.Safety.{Answers, evaluate-challenge}
use atlas_mcp.Tasks.Store.{TaskStore, save_task, get_task}
use atlas_mcp.Tasks.World.{Setup, World, entered}
use atlas_mcp.Tasks.Plan.{status, is_denied}
use atlas_mcp.Tasks.Begin.{
  Running, Begun, finished, started, is_waiting, is_blocked, is_duplicate, load_request,
  finish_without_receipt, same_digest, check_approval, recheck, begin_task, begin,
}

-- A response answers the challenge that was planned, which is for the digest, before it expires.
abbrev pub Approved : Option ApprovalChallenge → Option ApprovalResponse → String → ℕ → Type 0
Approved (some c) (some r) digest now =
    (c.action_digest ≡ digest)
    × (c.approval_id ≡ r.approval_id)
    × (c.phrase ≡ r.phrase)
    × (now < c.expires_at)
Approved _ _ digest now = ⊥

validated :
    (planned : Option ApprovalChallenge) (c : ApprovalChallenge)
    (approval : Option ApprovalResponse) (now : ℕ)
    → (guard (same_digest planned (some c)) approval_action_digest_mismatch
        >> validate_approval planned approval now)
      ≡ ok tt
    → Approved planned approval c.action_digest now
unfolding validate_approval
validated none c approval now h = cc
validated (some p) c none now h = ground arith
validated (some p) c (some r) now h = ground (arith, validate_approval_iff p r now)

check_approval_ok :
    (w : World) (t : TaskRecord) (approval : Option ApprovalResponse) (o : PolicyOutcome)
    (challenge : Option ApprovalChallenge) (c : ApprovalChallenge)
    → Answers c o challenge
    → is_denied o ≡ false
    → check_approval w t approval o challenge ≡ ok tt
    → (o ≡ PolicyOutcome.allow)
      ⊎ ((o ≡ PolicyOutcome.confirm)
          × Approved t.approval approval c.action_digest (w.clock entered))
unfolding check_approval
check_approval_ok w t approval PolicyOutcome.allow ch c h d k = inl refl
check_approval_ok w t approval PolicyOutcome.deny ch c h d k = cc
check_approval_ok w t approval PolicyOutcome.confirm none c h d k = cc
check_approval_ok w t approval PolicyOutcome.confirm (some ch) c h d k =
    inr (refl, ground (arith, validated t.approval ch approval (w.clock entered)))

-- What holds of a task that reaches the adapter: it was waiting, its key is not committed, the
-- request is the one that was sealed for it, and the policy, asked again, either allows the operation
-- or is answered by a valid approval of it.
abbrev pub Gate : Setup → World → TaskStore → String → Option ApprovalResponse → Begun → Type 0
Gate setup w s id approval (finished after e) = Unit
Gate setup w s id approval (started after r) =
    (t : TaskRecord) × (get_task s id ≡ some t)
    × (is_waiting t.status ≡ true)
    × (is_duplicate s t.idempotency_key ≡ false)
    × (load_request setup s id ≡ ok r.request)
    × (after ≡ save_task s r.task)
    × (r.task.status ≡ TaskStatus.running)
    × (r.task.id ≡ t.id)
    × ((o : PolicyOutcome) × (o
          ≡ (evaluate setup.platform setup.policy t.id w.approval_id (w.clock entered)
              r.request).decision.outcome)
        × ((o ≡ PolicyOutcome.allow)
            ⊎ ((o ≡ PolicyOutcome.confirm)
                × Approved t.approval approval (setup.platform.digest t.id r.request.operation)
                    (w.clock entered))))

begin_task-running :
    (setup : Setup) (w : World) (s : TaskStore) (approval : Option ApprovalResponse) (id : String)
    (t : TaskRecord)
    → t.status ≡ TaskStatus.running
    → begin_task setup w s approval id t ≡ err (task_not_executable TaskStatus.running)
unfolding begin_task
begin_task-running setup w s approval id t h = rw (h) refl

begin-running :
    (setup : Setup) (w : World) (s : TaskStore) (id : String) (approval : Option ApprovalResponse)
    (t : TaskRecord)
    → get_task s id ≡ some t
    → t.status ≡ TaskStatus.running
    → begin setup w s id approval ≡ err (task_not_executable TaskStatus.running)
unfolding begin status
begin-running setup w s id approval t h e = rw (h) (begin_task-running setup w s approval id t e)

module _ (setup : Setup) (w : World) (s : TaskStore) (id : String)
    (approval : Option ApprovalResponse) where
  abbrev G : Begun → Type 0
  G = Gate setup w s id approval

  recheck-Gate :
      (t : TaskRecord) (request : TaskRequest)
      → get_task s id ≡ some t
      → is_waiting t.status ≡ true
      → is_duplicate s t.idempotency_key ≡ false
      → load_request setup s id ≡ ok request
      → OnOk G (recheck setup w s approval t request)
  unfolding recheck finish_without_receipt challenge_for
  recheck-Gate t request a b c d =
      let e = evaluate setup.platform setup.policy t.id w.approval_id (w.clock entered) request in
      OnOk-if G (is_denied e.decision.outcome) _ _ (λ _. tt)
        λ denied.
          OnOk-then G (check_approval w t approval e.decision.outcome e.challenge) _ λ _ checked. (
            t,
            a,
            b,
            c,
            d,
            refl,
            refl,
            refl,
            (
              e.decision.outcome,
              refl,
              check_approval_ok w t approval e.decision.outcome e.challenge
                  (challenge_for setup.platform setup.policy t.id request.operation w.approval_id
                    (w.clock entered))
                  (evaluate-challenge setup.platform setup.policy t.id w.approval_id
                    (w.clock entered) request)
                  denied checked,
            ),
          )

  begin_task-Gate :
      (t : TaskRecord) → get_task s id ≡ some t → OnOk G (begin_task setup w s approval id t)
  unfolding begin_task finish_without_receipt
  begin_task-Gate t a =
      OnOk-if G (is_blocked t.status) _ _ (λ _. tt)
        λ _.
          OnOk-if G (not (is_waiting t.status)) _ _ (λ _. tt)
            λ waiting.
              OnOk-if G (is_duplicate s t.idempotency_key) _ _ (λ _. tt)
                λ fresh.
                  OnOk-then G (load_request setup s id) _ λ request loaded.
                    recheck-Gate t request a (ground (arith, waiting)) fresh loaded

  -- When `execute` saves a task as running, which comes before every call of the adapter, the task was
  -- waiting, its idempotency key was not committed, the operation is that of the sealed request, and
  -- the policy, asked again, allows it, or asks for an approval and the response is a valid one, in
  -- time, for the digest of this very operation.
  pub begin-Gate : OnOk (Gate setup w s id approval) (begin setup w s id approval)
  unfolding begin status
  begin-Gate =
      OnOk-then G (status s id) _
        λ t h. begin_task-Gate t (require-eq-ok (get_task s id) task_not_found h)

  -- On the store as `execute` leaves it when it saves a task as running under the task's id, every
  -- further `execute` of that task is refused, with every approval, with `task_not_executable`.
  pub begin-begin :
      (setup' : Setup) (w' : World) (approval' : Option ApprovalResponse) (s' : TaskStore)
      (r : Running)
      → begin setup w s id approval ≡ ok (started s' r)
      → r.task.id ≡ id
      → begin setup' w' s' id approval' ≡ err (task_not_executable TaskStatus.running)
  unfolding get_task save_task
  begin-begin setup' w' approval' s' r h e =
      let (t, _, _, _, _, saved, is_running, _, _) =
        OnOk-at G (begin setup w s id approval) (started s' r) begin-Gate h in
      begin-running setup' w' s' id approval' r.task
        (subst (λ k. get_task s' k ≡ some r.task) e
          (subst (λ x. get_task x r.task.id ≡ some r.task) (sym saved)
            (get-put_self r.task.id r.task s.tasks)))
        is_running
