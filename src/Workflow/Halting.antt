-- ===== src/Workflow/Halting.antt =====
-- The halts and the resumption of packages/runtime-core/src/workflow-controller.ts.
use atlas_mcp.Prelude.{
  ◌+◌, String, ◌≡◌, ◌≢◌, refl, sym, ap, ◌∙◌, subst, true, false, Option, none, some, [], ◌∷◌, ◌++◌,
  get, put, ok, err, OnOk-at, ◌>>=◌, arith, map_ok,
}
use atlas_mcp.Protocol.Failure.{projection_event_mismatch}
use atlas_mcp.Protocol.Workflow.{EventType, Run, WorkflowStatus, WorkflowStatus-discrete}
use atlas_mcp.Events.Reduce.{parse_run, run_valid, target_allowed}
use atlas_mcp.Events.Replay.{rebuild-eq_ok}
use atlas_mcp.Store.Workflows.{WorkflowStore, get_run, transition_workflow}
use atlas_mcp.Workflow.Transition.{
  Clock, Draft, make_event, make_events, replay_from, status, store_transition, transition,
}
use atlas_mcp.Workflow.Control.{
  Halt, halt_status, halt_event, halt_draft, halt, is_terminal, is_halted, resumed_status,
  resume_draft, resume, from_to,
}
use atlas_mcp.Workflow.Commits.{transition_workflow_ok}
use atlas_mcp.Workflow.Consistency.{IsConsistent, Sound, transition-Sound}
use atlas_mcp.Workflow.History.{events_of}
use atlas_mcp.Workflow.StatusEvents.{
  changes_status, apply_event_status, bumped_valid, cleared_valid, same_json_refl, same_json-error,
  status_event, holds_no,
}

halt_changes : (h : Halt) → changes_status (halt_event h) ≡ true
halt_changes Halt.pausing = refl
halt_changes Halt.suspending = refl

halt_allowed : (h : Halt) → target_allowed (halt_event h) (halt_status h) ≡ true
unfolding target_allowed WorkflowStatus-discrete
halt_allowed Halt.pausing = refl
halt_allowed Halt.suspending = refl

resume_allowed : (to : WorkflowStatus) → target_allowed EventType.resumed to ≡ true
unfolding target_allowed
resume_allowed to = refl

-- The run after one status event.
abbrev pub moved : Clock → Run → WorkflowStatus → Run
moved clock r to = record r {
  status = to;
  error = none;
  state_version = r.state_version + 1;
  updated_at = clock (r.state_version + 1);
}

-- The store after it.
abbrev pub moved_store : Clock → WorkflowStore → Run → EventType → WorkflowStatus → WorkflowStore
moved_store clock s r t to = record s {
  runs = put r.id (moved clock r to) s.runs;
  events = s.events ++ make_event clock r (r.state_version + 1) (t, from_to r.status to) ∷ [];
}

module _ (clock : Clock) (s : WorkflowStore) (r : Run) (t : EventType) (to : WorkflowStatus)
    (c : IsConsistent s) (stored : get r.id s.runs ≡ some r) (changes : changes_status t ≡ true)
    (allowed : target_allowed t to ≡ true) where
  stored_valid : run_valid r ≡ true
  stored_valid = (rebuild-eq_ok (events_of r.id s.events) r (c.rebuilt r.id r stored)).1

  moved_valid : run_valid (moved clock r to) ≡ true
  moved_valid =
      bumped_valid (record r { error = none }) to r.state_version _ (cleared_valid r stored_valid)

  replayed :
      replay_from r (status_event clock r (r.state_version + 1) t to ∷ []) ≡ ok (moved clock r to)
  unfolding replay_from parse_run
  replayed =
      rw (apply_event_status clock r (r.state_version + 1) t to changes allowed refl, moved_valid)

  abbrev draft_of : Option String → Draft
  draft_of error = record {
    run = record r { status = to; error = error };
    emitted = (t, from_to r.status to) ∷ [];
  }

  abbrev moved_with : Option String → Run
  moved_with error = record (moved clock r to) { error = error }

  committed :
      transition_workflow s r.id r.state_version
        (moved clock r to)
        (make_event clock r (r.state_version + 1) (t, from_to r.status to) ∷ [])
      ≡ ok (moved_store clock s r t to)
  unfolding make_event
  committed =
      transition_workflow_ok s r (moved clock r to)
        (make_event clock r (r.state_version + 1) (t, from_to r.status to)) [] c stored
        (record { id = refl; trace = refl; definition = refl; version = refl; nodes = refl })
        moved_valid refl (refl, tt) ((refl, refl), tt)

  -- The draft keeps an error that the reducer drops: nothing is stored.
  error_kept :
      (x : String)
      → r.error ≡ some x
      → transition clock s r (draft_of r.error) ≡ err projection_event_mismatch
  unfolding transition store_transition make_events parse_run
  error_kept x h = rw (
    bumped_valid r to r.state_version _ stored_valid,
    replayed,
    same_json-error (moved clock r to) (moved_with r.error) (λ e. cc (e, h)),
  )

  -- The draft has no error: the event is stored, and the run moves on.
  error_dropped :
      transition clock s r (draft_of none) ≡ ok (moved clock r to, moved_store clock s r t to)
  unfolding transition store_transition make_events parse_run
  error_dropped = rw (moved_valid, replayed, same_json_refl (moved clock r to), committed)

  error_free :
      (error : Option String)
      → error ≡ none
      → transition clock s r (draft_of error) ≡ ok (moved clock r to, moved_store clock s r t to)
  error_free error p =
      subst
        (λ x. transition clock s r (draft_of x) ≡ ok (moved clock r to, moved_store clock s r t to))
        (sym p) error_dropped

  moved_Sound :
      IsConsistent (moved_store clock s r t to)
      × (get r.id (moved_store clock s r t to).runs ≡ some (moved clock r to))
  moved_Sound =
      OnOk-at (Sound clock s r (draft_of none)) (transition clock s r (draft_of none))
        (moved clock r to, moved_store clock s r t to)
        (transition-Sound clock s r (draft_of none) c stored) error_dropped

-- A run of a consistent store that is not halted so already, has not ended and carries no error is halted: its status is
-- the halt's, its version the next, and its nodes and all else are as before; the event is stored.
pub halt_ok :
    (clock : Clock) (s : WorkflowStore) (r : Run) (h : Halt)
    → IsConsistent s
    → get r.id s.runs ≡ some r
    → r.status ≢ halt_status h
    → is_terminal r.status ≡ false
    → r.error ≡ none
    → halt clock s r.id h
      ≡ ok (moved clock r (halt_status h), moved_store clock s r (halt_event h) (halt_status h))
unfolding halt status get_run halt_draft
halt_ok clock s r h c stored n live e =
    rw (stored, holds_no (WorkflowStatus-discrete r.status (halt_status h)) n, live)
      (error_free clock s r (halt_event h) (halt_status h) c stored (halt_changes h)
        (halt_allowed h) r.error e)

-- A run of a consistent store that could be halted but carries an error is not: the draft keeps the error, the reducer
-- drops it, and the halt throws `workflow_projection_event_mismatch`.
pub halt-error :
    (clock : Clock) (s : WorkflowStore) (r : Run) (h : Halt) (message : String)
    → IsConsistent s
    → get r.id s.runs ≡ some r
    → r.status ≢ halt_status h
    → is_terminal r.status ≡ false
    → r.error ≡ some message
    → halt clock s r.id h ≡ err projection_event_mismatch
unfolding halt status get_run halt_draft
halt-error clock s r h message c stored n live e =
    rw (stored, holds_no (WorkflowStatus-discrete r.status (halt_status h)) n, live)
      (error_kept clock s r (halt_event h) (halt_status h) c stored (halt_changes h)
        (halt_allowed h) message e)

-- A halted run of a consistent store is resumed: its status is what its nodes wait for, its error is gone, its version is
-- the next, and its nodes are as before; the event is stored.
pub resume_ok :
    (clock : Clock) (s : WorkflowStore) (r : Run)
    → IsConsistent s
    → get r.id s.runs ≡ some r
    → is_halted r.status ≡ true
    → resume clock s r.id
      ≡ ok (
        moved clock r (resumed_status r),
        moved_store clock s r EventType.resumed (resumed_status r),
      )
unfolding resume status get_run resume_draft
resume_ok clock s r c stored h =
    rw (stored, h)
      (error_dropped clock s r EventType.resumed (resumed_status r) c stored refl
        (resume_allowed _))

resumed_live :
    (r : Run) (h : Halt)
    → (resumed_status r ≢ halt_status h) × (is_terminal (resumed_status r) ≡ false)
unfolding resumed_status
resumed_live r h = ground arith

halt_is_halted : (h : Halt) → is_halted (halt_status h) ≡ true
halt_is_halted Halt.pausing = refl
halt_is_halted Halt.suspending = refl

resumed-moved :
    (clock : Clock) (r : Run) (to : WorkflowStatus)
    → resumed_status (moved clock r to) ≡ resumed_status r
unfolding resumed_status
resumed-moved clock r to = refl

-- A run of a consistent store whose status is the one that its nodes wait for, and that carries no error, is halted and
-- then resumed: both calls go through, and the run differs from what it was only by two versions
-- and the time of its last change.
pub resume-halt :
    (clock : Clock) (s : WorkflowStore) (r : Run) (h : Halt)
    → IsConsistent s
    → get r.id s.runs ≡ some r
    → r.status ≡ resumed_status r
    → r.error ≡ none
    → map_ok (λ x. x.0) (halt clock s r.id h >>= λ (r', s'). resume clock s' r'.id)
      ≡ ok (record r {
        state_version = r.state_version + 1 + 1;
        updated_at = clock (r.state_version + 1 + 1);
      })
resume-halt clock s r h c stored st e =
    let (n, live) = resumed_live r h in
    let (c', stored') =
      moved_Sound clock s r (halt_event h) (halt_status h) c stored (halt_changes h)
        (halt_allowed h) in
    let halted = moved clock r (halt_status h) in
    rw (halt_ok clock s r h c stored (λ p. n (sym st ∙ p)) (ap is_terminal st ∙ live) e) (
      rw
        (resume_ok clock (moved_store clock s r (halt_event h) (halt_status h)) halted c' stored'
          (halt_is_halted h))
        (rw (resumed-moved clock r (halt_status h), ← st, ← e) refl))
