-- ===== src/Tasks/Once.antt =====
-- The idempotency keys of `execute` in packages/runtime-core/src/task-controller.ts: how an execution
-- commits the key of its task.
use atlas_mcp.Prelude.{
  String, ◌≡◌, refl, ap, ◌∙◌, Bool, true, false, Option, none, some, get, OnOk, OnOk-at,
  handle-cases, arith, ℕ, zero, suc, ◌+◌, Result, ok, err, Bool-cases, inl, inr,
}
use atlas_mcp.Protocol.Failure.{Failure}
use atlas_mcp.Protocol.Json.{Fields}
use atlas_mcp.Protocol.Operation.{Operation}
use atlas_mcp.Protocol.Task.{TaskRecord}
use atlas_mcp.Guards.Breaker.{Breaker, check}
use atlas_mcp.Tasks.Store.{
  TaskStore, Commit, save_task, get_idempotency_commit, save_task_execution_result,
}
use atlas_mcp.Tasks.World.{Setup, World, Moment, verifying, answered}
use atlas_mcp.Tasks.Begin.{ExecutionResult, Running}
use atlas_mcp.Tasks.Execute.{
  Tried, returned, threw, try_once, execute_with_retries, attempted_task, attempted_store,
}
use atlas_mcp.Tasks.Finish.{settle, run, verifying_task}
use atlas_mcp.Tasks.Claims.{Claimed, ClaimedEnd, fail-ClaimedEnd, complete-ClaimedEnd}

-- A key that is committed in `s` is committed to the same task in `s'`.
abbrev Holds : String → TaskStore → TaskStore → Type 0
Holds key s s' =
    (c : Commit) → get_idempotency_commit s key ≡ some c → get_idempotency_commit s' key ≡ some c

-- What other calls do while an execution waits removes and changes no commit.
abbrev pub KeepsCommits : World → Type 0
KeepsCommits w = (m : Moment) (key : String) (s : TaskStore) → Holds key s (w.others m s)

-- The loop over the attempts leaves the id and the key of the task, and the commits.
abbrev KeptTried : String → TaskRecord → TaskStore → Tried → Type 0
KeptTried key t s (returned result t' s') =
    (t'.id ≡ t.id) × (t'.idempotency_key ≡ t.idempotency_key) × Holds key s s'
KeptTried key t s (threw message t' s') =
    (t'.id ≡ t.id) × (t'.idempotency_key ≡ t.idempotency_key) × Holds key s s'

none-back :
    (key : String) (s s' : TaskStore) (there : Option Commit)
    → get_idempotency_commit s key ≡ there
    → Holds key s s'
    → get_idempotency_commit s' key ≡ none
    → get_idempotency_commit s key ≡ none
none-back key s s' none e kept free = e
none-back key s s' (some c) e kept free = let still = kept c e in cc

Claimed-back :
    (key : String) (s s' after : TaskStore) (t t' : TaskRecord)
    (answer : Result Failure ExecutionResult)
    → Holds key s s'
    → t'.id ≡ t.id
    → OnOk (Claimed s' key t' after) answer
    → OnOk (Claimed s key t after) answer
Claimed-back key s s' after t t' (err x) kept same claimed = tt
Claimed-back key s s' after t t' (ok e) kept same claimed = λ verified.
    let (free, (c, committed, own)) = claimed verified in
    (none-back key s s' (get_idempotency_commit s key) refl kept free, (c, committed, own ∙ same))

save_result-commits :
    (s : TaskStore) (t : TaskRecord) (sealed : String)
    → OnOk (λ s'. s'.commits ≡ s.commits) (save_task_execution_result s t sealed)
unfolding save_task_execution_result
save_result-commits s t sealed = ground arith

commits-Holds : (key : String) (s s' : TaskStore) → s'.commits ≡ s.commits → Holds key s s'
unfolding get_idempotency_commit
commits-Holds key s s' same c h = ap (get key) same ∙ h

module _ (w : World) (key : String) (keeps : KeepsCommits w) where
  attempted-Holds : (a : ℕ) (t : TaskRecord) (s : TaskStore) → Holds key s (attempted_store w a t s)
  unfolding save_task get_idempotency_commit
  attempted-Holds a t s c h = keeps (answered a) key (save_task s (attempted_task w a t)) c h

  KeptTried-next :
      (a : ℕ) (t : TaskRecord) (s : TaskStore) (tried : Tried)
      → KeptTried key (attempted_task w a t) (attempted_store w a t s) tried
      → KeptTried key t s tried
  KeptTried-next a t s (returned result t' s') (i, k, h) =
      (i, k, λ c e. h c (attempted-Holds a t s c e))
  KeptTried-next a t s (threw m t' s') (i, k, h) = (i, k, λ c e. h c (attempted-Holds a t s c e))

  try_once-KeptTried :
      (a : ℕ) (t : TaskRecord) (s : TaskStore) (aborted : Bool) (answer : Result String Fields)
      (give_up : Bool) (next : String → Tried)
      → ((m : String) → KeptTried key t s (next m))
      → KeptTried key t s (try_once w a t s aborted answer give_up next)
  unfolding try_once
  try_once-KeptTried a t s true answer give_up next h = (refl, refl, λ c e. e)
  try_once-KeptTried a t s false (ok result) give_up next h = (refl, refl, attempted-Holds a t s)
  try_once-KeptTried a t s false (err m) true next h = (refl, refl, attempted-Holds a t s)
  try_once-KeptTried a t s false (err m) false next h = h m

  retries-KeptTried :
      (op : Operation) (left a : ℕ) (last : String) (t : TaskRecord) (s : TaskStore)
      → KeptTried key t s (execute_with_retries w op left a last t s)
  unfolding execute_with_retries
  retries-KeptTried op zero a last t s = (refl, refl, λ c e. e)
  retries-KeptTried op (suc left) a last t s = try_once-KeptTried a t s _ _ _ _ λ m.
      KeptTried-next a t s _
        (retries-KeptTried op left (a + 1) m (attempted_task w a t) (attempted_store w a t s))

module _ (setup : Setup) (w : World) (r : Running) (key : String) (keeps : KeepsCommits w) where
  settle-ClaimedEnd :
      (b : Breaker) (t : TaskRecord) (s : TaskStore) (tried : Tried)
      → t.idempotency_key ≡ some key
      → KeptTried key t s tried
      → ClaimedEnd s key t (settle setup w r b tried)
  unfolding settle
  settle-ClaimedEnd b t s (threw message t' s') e kept =
      fail-ClaimedEnd setup w r b false message t' s' s key t
  settle-ClaimedEnd b t s (returned result t' s') e (same, same_key, kept) =
      let reported = verifying_task setup w r result t' in
      handle-cases (ClaimedEnd s key t) (save_task_execution_result s' reported _) _ _
        (λ x h. fail-ClaimedEnd setup w r b false "task_payload_not_found" reported s' s key t)
        λ saved h.
          let unchanged =
            OnOk-at _ (save_task_execution_result s' reported _) saved
              (save_result-commits s' reported _) h in
          Claimed-back key s (w.others verifying saved) _ t reported _
            (λ c there.
              keeps verifying key saved c (commits-Holds key s' saved unchanged c (kept c there)))
            same
            (complete-ClaimedEnd setup w r b result reported (w.others verifying saved) key
              (same_key ∙ e))

  -- While other calls remove and change no commit: an execution from the breaker on, of a task with
  -- an idempotency key, that answers with the task in `verified_success` started on a store where no
  -- task had the key committed, and leaves the key committed to its own task.
  pub run-ClaimedEnd :
      (b : Breaker) (s : TaskStore)
      → r.task.idempotency_key ≡ some key
      → ClaimedEnd s key r.task (run setup w r b s)
  unfolding run
  run-ClaimedEnd b s e =
      elim (Bool-cases (check setup.breaker_options b r.classified.target r.started_at)) [
        | inl h ↦ rw (h) (fail-ClaimedEnd setup w r b true _ r.task s s key r.task)
        | inr h ↦ rw (h) (
            settle-ClaimedEnd (w.others_breaker b) r.task s _ e
              (retries-KeptTried w key keeps r.request.operation _ 1 _ r.task s))
      ]
