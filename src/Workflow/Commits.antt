-- ===== src/Workflow/Commits.antt =====
-- When `transitionWorkflow` of packages/storage-sqlite/src/index.ts goes through.
use atlas_mcp.Prelude.{
  ℕ, ◌+◌, ◌≡◌, refl, sym, subst, true, some, List, [], ◌∷◌, ◌++◌, length, every_of, All, get, put,
  nat_eq, nat_eq_refl, ◌==◌, ◌&&◌, ok, OnOk-at, arith,
}
use atlas_mcp.Protocol.Workflow.{Event, Run}
use atlas_mcp.Events.Reduce.{parse_run, run_valid}
use atlas_mcp.Events.Replay.{Numbered, rebuild-IsHistory, IsHistory}
use atlas_mcp.Events.Steps.{Keeps}
use atlas_mcp.Store.Workflows.{
  WorkflowStore, transition_workflow, insert_events, assert_events, sequences_follow,
}
use atlas_mcp.Workflow.History.{events_of, OfRun, insert_events_ok}
use atlas_mcp.Workflow.Consistency.{IsConsistent}

-- The events are of the run and of its trace.
abbrev pub Traced : Run → List Event → Type 0
Traced r es = All (λ e. (e.aggregate_id ≡ r.id) × (e.trace_id ≡ r.trace_id)) es

Traced-own : (r : Run) (es : List Event) → Traced r es → OfRun r.id es
Traced-own r [] h = tt
Traced-own r (e ∷ es) ((p, q), h) = (p, Traced-own r es h)

every_of-Traced :
    (r : Run) (es : List Event)
    → Traced r es
    → every_of (λ e. (e.aggregate_id == r.id) && (e.trace_id == r.trace_id)) es ≡ true
every_of-Traced r [] h = refl
every_of-Traced r (e ∷ es) ((p, q), h) = ground (arith, every_of-Traced r es h)

sequences_follow-Numbered :
    (n : ℕ) (es : List Event) → Numbered (n + 1) es → sequences_follow n es ≡ true
unfolding sequences_follow
sequences_follow-Numbered n [] h = refl
sequences_follow-Numbered n (e ∷ es) (p, h) = ground (arith, sequences_follow-Numbered (n + 1) es h)

assert_events_ok :
    (r : Run) (n : ℕ) (e : Event) (es : List Event)
    → Traced r (e ∷ es)
    → Numbered (n + 1) (e ∷ es)
    → assert_events r.id r.trace_id n (n + length (e ∷ es)) (e ∷ es) ≡ ok tt
unfolding assert_events
assert_events_ok r n e es t h = rw (
  every_of-Traced r (e ∷ es) t,
  nat_eq_refl (n + length (e ∷ es)),
  sequences_follow-Numbered n (e ∷ es) h,
)

module _ (s : WorkflowStore) (current run : Run) (e : Event) (es : List Event) (c : IsConsistent s)
    (stored : get current.id s.runs ≡ some current) (keeps : Keeps current run)
    (valid : run_valid run ≡ true)
    (counted : run.state_version ≡ current.state_version + length (e ∷ es))
    (numbered : Numbered (current.state_version + 1) (e ∷ es)) (traced : Traced run (e ∷ es)) where
  inserted : insert_events s.events (e ∷ es) ≡ ok (s.events ++ e ∷ es)
  inserted =
      let h =
        OnOk-at (IsHistory (events_of current.id s.events)) _ current
          (rebuild-IsHistory (events_of current.id s.events))
          (c.rebuilt current.id current stored) in
      insert_events_ok current.id current.state_version s.events (e ∷ es) h.numbered (sym h.counted)
        numbered (subst (λ i. OfRun i (e ∷ es)) keeps.id (Traced-own run (e ∷ es) traced))

  asserted :
      assert_events current.id run.trace_id current.state_version run.state_version (e ∷ es) ≡ ok tt
  asserted =
      subst (λ v. assert_events current.id run.trace_id current.state_version v (e ∷ es) ≡ ok tt)
        (sym counted)
        (subst
          (λ i.
            assert_events i run.trace_id current.state_version
              (current.state_version + length (e ∷ es)) (e ∷ es)
            ≡ ok tt)
          keeps.id (assert_events_ok run current.state_version e es traced numbered))

  same_id : (run.id == current.id) ≡ true
  same_id = ground (arith, keeps.id)

  same_identity :
      ((run.definition_id == current.definition_id)
        && nat_eq run.definition_version current.definition_version
        && (run.trace_id == current.trace_id))
      ≡ true
  same_identity = ground (arith, keeps.definition, keeps.version, keeps.trace)

  pub transition_workflow_ok :
      transition_workflow s current.id current.state_version run (e ∷ es)
      ≡ ok (record s { runs = put current.id run s.runs; events = s.events ++ e ∷ es })
  unfolding transition_workflow parse_run
  transition_workflow_ok =
      rw (
        valid,
        asserted,
        same_id,
        stored,
        nat_eq_refl current.state_version,
        same_identity,
        inserted,
      )
