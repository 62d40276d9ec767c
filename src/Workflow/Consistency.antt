-- ===== src/Workflow/Consistency.antt =====
-- The stored runs and their stored events, in packages/runtime-core/src/workflow-controller.ts and
-- packages/storage-sqlite/src/index.ts.
use atlas_mcp.Prelude.{
  ℕ, String, ◌≡◌, ◌≢◌, refl, sym, ap, ◌∙◌, true, ◌&&◌, none, some, List, [], ◌∷◌, ◌++◌, every_of,
  get, put, get-put_self, get-put_ne, text_dec, ◌==◌, ok, OnOk, OnOk-bind, OnOk-then, ◌>>=◌,
  >>=-cong, >>=_assoc, arith, guard, Bool-cases, inl, inr,
}
use mathlib.Core.List.{append-nil}
use atlas_mcp.Protocol.Workflow.{Event, Run}
use atlas_mcp.Events.Reduce.{parse_run, run_valid, rebuild, snapshot_run, apply_event, apply_events}
use atlas_mcp.Events.Replay.{rebuild-eq_ok, apply_events-append}
use atlas_mcp.Store.Workflows.{WorkflowStore, transition_workflow, assert_events, is_empty}
use atlas_mcp.Workflow.Transition.{
  Clock, Draft, transition, store_transition, replay_from, make_events,
}
use atlas_mcp.Workflow.History.{
  events_of, OfRun, events_of-append, events_of-own, events_of-others, insert_events-append,
}

-- What a compare-and-swap that went through has stored.
pub record Committed (s : WorkflowStore) (id : String) (expected : ℕ) (run : Run)
    (events : List Event) (s' : WorkflowStore) : Type 0 where
  pub runs : s'.runs ≡ put id run s.runs
  pub table : s'.events ≡ s.events ++ events
  pub own : OfRun id events
  pub named : run.id ≡ id
  pub valid : run_valid run ≡ true
  pub version : (r : Run) → get id s.runs ≡ some r → r.state_version ≡ expected

every_own :
    (id trace : String) (es : List Event)
    → every_of (λ e. (e.aggregate_id == id) && (e.trace_id == trace)) es ≡ true
    → OfRun id es
every_own id trace [] h = tt
every_own id trace (e ∷ es) h = ground (arith, every_own id trace es)

pub assert_events-own :
    (id trace : String) (n m : ℕ) (es : List Event)
    → OnOk (λ u. OfRun id es) (assert_events id trace n m es)
unfolding assert_events
assert_events-own id trace n m es = ground (arith, every_own id trace es)

pub transition_workflow-Committed :
    (s : WorkflowStore) (id : String) (expected : ℕ) (run : Run) (events : List Event)
    → OnOk (Committed s id expected run events) (transition_workflow s id expected run events)
unfolding transition_workflow parse_run
transition_workflow-Committed s id expected run events = ground (
  arith,
  assert_events-own id run.trace_id expected run.state_version events,
  insert_events-append s.events events,
)

-- Each stored run is what its stored events rebuild to, and no events are stored without a run.
pub record IsConsistent (s : WorkflowStore) : Type 0 where
  pub named : (id : String) (r : Run) → get id s.runs ≡ some r → r.id ≡ id
  pub rebuilt :
      (id : String) (r : Run) → get id s.runs ≡ some r → rebuild none (events_of id s.events) ≡ ok r
  pub orphans : (id : String) → get id s.runs ≡ none → events_of id s.events ≡ []

pub apply_events-replay :
    (r : Run) (es : List Event) → apply_events (some r) es ≡ (replay_from r es >>= λ t. ok (some t))
unfolding apply_events replay_from
apply_events-replay r [] = refl
apply_events-replay r (e ∷ es) =
    >>=-cong (apply_event (some r) e) _ _ (λ t. apply_events-replay t es)
    ∙ sym (>>=_assoc (apply_event (some r) e) (λ t. replay_from t es) (λ t. ok (some t)))

-- The events that lead from a rebuilt run to another extend its history.
pub rebuild-extend :
    (old new : List Event) (r t : Run)
    → rebuild none old ≡ ok r
    → replay_from r new ≡ ok t
    → run_valid t ≡ true
    → rebuild none (old ++ new) ≡ ok t
unfolding rebuild snapshot_run parse_run
rebuild-extend old new r t h p v =
    rw
      (apply_events-append none old new, (rebuild-eq_ok old r h).0, apply_events-replay r new, p, v)

module _ (s s' : WorkflowStore) (current rebuilt : Run) (events : List Event) (c : IsConsistent s)
    (stored : get current.id s.runs ≡ some current)
    (replayed : replay_from current events ≡ ok rebuilt)
    (done : Committed s current.id current.state_version rebuilt events s') where
  own_events : events_of current.id s'.events ≡ events_of current.id s.events ++ events
  own_events =
      ap (events_of current.id) done.table
      ∙ events_of-append current.id s.events events
      ∙ ap (λ (t : List Event). events_of current.id s.events ++ t)
          (events_of-own current.id events done.own)

  other_events : (j : String) → current.id ≢ j → events_of j s'.events ≡ events_of j s.events
  other_events j n =
      ap (events_of j) done.table
      ∙ events_of-append j s.events events
      ∙ ap (λ (t : List Event). events_of j s.events ++ t)
          (events_of-others current.id j events (λ p. n (sym p)) done.own)
      ∙ append-nil (events_of j s.events)

  own_history : rebuild none (events_of current.id s'.events) ≡ ok rebuilt
  own_history = rw own_events (
      rebuild-extend (events_of current.id s.events) events current rebuilt
        (c.rebuilt current.id current stored) replayed done.valid)

  pub own_run : get current.id s'.runs ≡ some rebuilt
  own_run = ap (get current.id) done.runs ∙ get-put_self current.id rebuilt s.runs

  other_run : (j : String) → current.id ≢ j → get j s'.runs ≡ get j s.runs
  other_run j n = ap (get j) done.runs ∙ get-put_ne current.id j rebuilt s.runs n

  pub commit-IsConsistent : IsConsistent s'
  commit-IsConsistent = record {
    named = λ j r h. elim (text_dec current.id j) [
      | yes p ↦
          let q : some rebuilt ≡ some r = sym own_run ∙ ap (λ k. get k s'.runs) p ∙ h in
          cc (done.named)
      | no n ↦ c.named j r (sym (other_run j n) ∙ h)
    ];
    rebuilt = λ j r h. elim (text_dec current.id j) [
      | yes p ↦
          let q : some rebuilt ≡ some r = sym own_run ∙ ap (λ k. get k s'.runs) p ∙ h in
          ap (λ k. rebuild none (events_of k s'.events)) (sym p) ∙ own_history ∙ cc
      | no n ↦ ap (rebuild none) (other_events j n) ∙ c.rebuilt j r (sym (other_run j n) ∙ h)
    ];
    orphans = λ j h. elim (text_dec current.id j) [
      | yes p ↦ cc (own_run, ap (λ k. get k s'.runs) p)
      | no n ↦ other_events j n ∙ c.orphans j (sym (other_run j n) ∙ h)
    ];
  }

module _ (clock : Clock) (s : WorkflowStore) (current : Run) (d : Draft) where
  abbrev pub Sound : Run × WorkflowStore → Type 0
  Sound (r, s') = IsConsistent s' × (get current.id s'.runs ≡ some r)

  store_transition-Sound :
      IsConsistent s
      → get current.id s.runs ≡ some current
      → OnOk Sound (store_transition clock s current d)
  unfolding store_transition
  store_transition-Sound c stored =
      let events = make_events clock current current.state_version d.emitted in
      OnOk-then Sound (parse_run _) _ λ expected _.
        OnOk-then Sound (replay_from current events) _ λ rebuilt replayed.
          OnOk-then Sound (guard _ _) _ λ _ _.
            OnOk-bind Sound (transition_workflow s current.id current.state_version rebuilt events)
              (λ s'. ok (rebuilt, s'))
              (transition_workflow-Committed s current.id current.state_version rebuilt events)
              λ s' done. (
                commit-IsConsistent s s' current rebuilt events c stored replayed done,
                own_run s s' current rebuilt events c stored replayed done,
              )

  -- A transition of a run of a consistent store that goes through keeps the store consistent, and
  -- leaves the run that it returns stored.
  pub transition-Sound :
      IsConsistent s
      → get current.id s.runs ≡ some current
      → OnOk Sound (transition clock s current d)
  unfolding transition
  transition-Sound c stored = elim (Bool-cases (is_empty d.emitted)) [
    | inl p ↦ rw p (c, stored)
    | inr p ↦ rw p (store_transition-Sound c stored)
  ]
