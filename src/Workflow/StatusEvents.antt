-- ===== src/Workflow/StatusEvents.antt =====
-- Events with `from` and `to` of packages/runtime-core/src/workflow-events.ts, and the comparison of
-- runs by their canonical JSON.
use atlas_mcp.Prelude.{
  ℕ, ◌+◌, ◌≡◌, ◌≢◌, refl, ap, Bool, true, false, none, some, get, text_dec, text_eq_refl,
  nat_eq_refl, nat_eq, holds, ok, arith, ◌==◌,
}
use atlas_mcp.Protocol.Workflow.{
  Event, EventType, Run, WorkflowStatus, WorkflowStatus-discrete, Run-discrete,
}
use atlas_mcp.Events.Reduce.{
  parse_run, run_valid, apply_event, apply_next, apply_type, apply_status, parse_status,
  parse_error, stamp, status_text, status_of_text, target_allowed, is_created,
}
use atlas_mcp.Workflow.Transition.{Clock, make_event, same_json, canonical}
use atlas_mcp.Workflow.Control.{from_to}

-- Every status is read back from its text.
pub status_of_text-status_text : (s : WorkflowStatus) → status_of_text (status_text s) ≡ some s
unfolding status_of_text status_text text_dec
status_of_text-status_text WorkflowStatus.draft = refl
status_of_text-status_text _ = refl

-- The events that change a status.
abbrev pub changes_status : EventType → Bool
changes_status EventType.created = false
changes_status EventType.node_changed = false
changes_status EventType.checkpoint_saved = false
changes_status (EventType.unknown _) = false
changes_status _ = true

same_status : (s : WorkflowStatus) → holds (WorkflowStatus-discrete s s) ≡ true
same_status s = ground arith

apply_type_status :
    (t : EventType) (r : Run) (e : Event)
    → changes_status t ≡ true
    → apply_type t r e ≡ apply_status r e
unfolding apply_type
apply_type_status EventType.created r e h = refl
apply_type_status EventType.node_changed r e h = cc
apply_type_status EventType.checkpoint_saved r e h = cc
apply_type_status (EventType.unknown x) r e h = cc
apply_type_status _ r e h = refl

not_created : (t : EventType) → changes_status t ≡ true → is_created t ≡ false
not_created EventType.created h = cc
not_created _ h = refl

module _ (clock : Clock) (r : Run) (n : ℕ) (t : EventType) (to : WorkflowStatus) where
  abbrev pub status_event : Event
  status_event = make_event clock r n (t, from_to r.status to)

  parse_from : parse_status status_event "from" ≡ ok r.status
  unfolding parse_status make_event get text_dec
  parse_from = rw (status_of_text-status_text r.status)

  parse_to : parse_status status_event "to" ≡ ok to
  unfolding parse_status make_event get text_dec
  parse_to = rw (status_of_text-status_text to)

  error_gone : parse_error status_event ≡ ok none
  unfolding parse_error make_event get text_dec
  error_gone = refl

  -- An event with `from` and `to` sets the status and drops the error of a run.
  apply_status_event :
      target_allowed t to ≡ true
      → apply_status r status_event ≡ ok (record r { status = to; error = none })
  unfolding apply_status
  apply_status_event h =
      let h' : target_allowed status_event.type to ≡ true = unfold make_event in h in
      rw (parse_from, parse_to, same_status r.status, h', error_gone)

  -- The same for the whole reducer: an event with `from` and `to` that is the next of the run.
  pub apply_event_status :
      changes_status t ≡ true
      → target_allowed t to ≡ true
      → n ≡ r.state_version + 1
      → apply_event (some r) status_event
        ≡ parse_run
            (record r { status = to; error = none; state_version = n; updated_at = clock n })
  unfolding apply_event apply_next stamp
  apply_event_status c h p =
      let q : nat_eq status_event.sequence (r.state_version + 1) ≡ true =
        unfold make_event in rw p (nat_eq_refl (r.state_version + 1)) in
      let i : is_created status_event.type ≡ false = unfold make_event in not_created t c in
      let a : (r.id == status_event.aggregate_id) ≡ true = unfold make_event in text_eq_refl r.id in
      let b : (r.trace_id == status_event.trace_id) ≡ true =
        unfold make_event in text_eq_refl r.trace_id in
      let k : apply_type status_event.type r status_event ≡ apply_status r status_event =
        unfold make_event in apply_type_status t r status_event c in
      rw (q, i, a, b, k, apply_status_event h) (unfold make_event in refl)

-- The bounds of a run's schema do not tell its status, version and times apart.
pub bumped_valid :
    (r : Run) (st : WorkflowStatus) (n at : ℕ)
    → run_valid r ≡ true
    → run_valid (record r { status = st; state_version = n + 1; updated_at = at }) ≡ true
unfolding run_valid
bumped_valid r st n at h = ground arith

pub cleared_valid : (r : Run) → run_valid r ≡ true → run_valid (record r { error = none }) ≡ true
unfolding run_valid
cleared_valid r h = ground arith

pub holds_no {ℓ} : {A : Type ℓ} (d : Dec A) → ¬ A → holds d ≡ false
holds_no (yes a) n = absurd (n a)
holds_no (no _) n = refl

holds_yes {ℓ} : {A : Type ℓ} (d : Dec A) → A → holds d ≡ true
holds_yes (yes a) h = refl
holds_yes (no n) h = absurd (n h)

pub same_json_refl : (r : Run) → same_json r r ≡ true
unfolding same_json
same_json_refl r = holds_yes (Run-discrete (canonical r) (canonical r)) refl

pub same_json-error : (a b : Run) → a.error ≢ b.error → same_json a b ≡ false
unfolding same_json canonical
same_json-error a b n =
    holds_no (Run-discrete (canonical a) (canonical b)) (λ p. n (ap (λ (r : Run). r.error) p))
