-- ===== src/Workflow/Creation.antt =====
-- A plan of packages/runtime-core/src/workflow-controller.ts in the store: `createWorkflow` of
-- packages/storage-sqlite/src/index.ts starts a history.
use atlas_mcp.Prelude.{
  String, ◌≡◌, ◌≢◌, refl, sym, ap, ◌∙◌, Bool, true, false, none, some, List, [], ◌∷◌, ◌++◌, get,
  put, get-put_self, get-put_ne, text_dec, ok, err, OnOk, OnOk-then, OnOk-bind, OnOk-weaken, subst,
  values, arith, if◌then◌else◌, Result,
}
use mathlib.Core.List.{append-nil}
use atlas_mcp.Protocol.Failure.{Failure, schema_invalid}
use atlas_mcp.Protocol.Workflow.{Definition, Event, Run, EventType, Value}
use atlas_mcp.Events.Reduce.{
  parse_run, run_valid, rebuild, snapshot_run, apply_event, apply_events, apply_created,
  created_run,
}
use atlas_mcp.Store.Workflows.{WorkflowStore, create_workflow}
use atlas_mcp.Workflow.Transition.{Clock, make_event}
use atlas_mcp.Workflow.History.{
  events_of, OfRun, events_of-append, events_of-own, events_of-others, insert_events-append,
}
use atlas_mcp.Workflow.Consistency.{IsConsistent, assert_events-own}
use atlas_mcp.Workflow.Graph.{validate_workflow}
use atlas_mcp.Workflow.Planning.{
  PlanSetup, draft_run, plan_events, planned_event, preflight_nodes, plan_workflow,
}

-- What a `createWorkflow` that went through has stored.
record Created (s : WorkflowStore) (run : Run) (events : List Event) (s' : WorkflowStore)
    : Type 0 where
  pub runs : s'.runs ≡ put run.id run s.runs
  pub table : s'.events ≡ s.events ++ events
  pub own : OfRun run.id events
  pub valid : run_valid run ≡ true

create_workflow-Created :
    (s : WorkflowStore) (redacted sealed : Definition) (run : Run) (events : List Event)
    → OnOk (Created s run events) (create_workflow s redacted sealed run events)
unfolding create_workflow parse_run
create_workflow-Created s redacted sealed run events = ground (
  arith,
  assert_events-own run.id run.trace_id 0 run.state_version events,
  insert_events-append s.events events,
)

module _ (s s' : WorkflowStore) (run : Run) (events : List Event) (c : IsConsistent s)
    (fresh : get run.id s.runs ≡ none) (history : rebuild none events ≡ ok run)
    (done : Created s run events s') where
  own_events : events_of run.id s'.events ≡ events
  own_events =
      ap (events_of run.id) done.table
      ∙ events_of-append run.id s.events events
      ∙ ap (λ (t : List Event). t ++ events_of run.id events) (c.orphans run.id fresh)
      ∙ events_of-own run.id events done.own

  other_events : (j : String) → run.id ≢ j → events_of j s'.events ≡ events_of j s.events
  other_events j n =
      ap (events_of j) done.table
      ∙ events_of-append j s.events events
      ∙ ap (λ (t : List Event). events_of j s.events ++ t)
          (events_of-others run.id j events (λ p. n (sym p)) done.own)
      ∙ append-nil (events_of j s.events)

  created_run_stored : get run.id s'.runs ≡ some run
  created_run_stored = ap (get run.id) done.runs ∙ get-put_self run.id run s.runs

  other_run : (j : String) → run.id ≢ j → get j s'.runs ≡ get j s.runs
  other_run j n = ap (get j) done.runs ∙ get-put_ne run.id j run s.runs n

  created-IsConsistent : IsConsistent s'
  created-IsConsistent = record {
    named = λ j r h. elim (text_dec run.id j) [
      | yes p ↦
          let q : some run ≡ some r = sym created_run_stored ∙ ap (λ k. get k s'.runs) p ∙ h in cc
      | no n ↦ c.named j r (sym (other_run j n) ∙ h)
    ];
    rebuilt = λ j r h. elim (text_dec run.id j) [
      | yes p ↦
          let q : some run ≡ some r = sym created_run_stored ∙ ap (λ k. get k s'.runs) p ∙ h in
          ap (λ k. rebuild none (events_of k s'.events)) (sym p)
          ∙ ap (rebuild none) own_events
          ∙ history
          ∙ cc
      | no n ↦ ap (rebuild none) (other_events j n) ∙ c.rebuilt j r (sym (other_run j n) ∙ h)
    ];
    orphans = λ j h. elim (text_dec run.id j) [
      | yes p ↦ cc (created_run_stored, ap (λ k. get k s'.runs) p)
      | no n ↦ other_events j n ∙ c.orphans j (sym (other_run j n) ∙ h)
    ];
  }

created_applied :
    (clock : Clock) (r : Run)
    → run_valid r ≡ true
    → r.state_version ≡ 1
    → apply_event none (make_event clock r 1 (EventType.created, ("run", Value.run r) ∷ [])) ≡ ok r
unfolding apply_event apply_created created_run make_event get
created_applied clock r valid first = ground arith

plan_history :
    (setup : PlanSetup) (draft planned : Run)
    → run_valid draft ≡ true
    → draft.state_version ≡ 1
    → apply_event (some draft) (planned_event setup draft) ≡ ok planned
    → run_valid planned ≡ true
    → rebuild none (plan_events setup draft) ≡ ok planned
unfolding rebuild snapshot_run apply_events plan_events parse_run
plan_history setup draft planned valid first applied planned_valid =
    rw (created_applied setup.clock draft valid first, applied, planned_valid) refl

checked-valid :
    (b : Bool) (r x : Run)
    → ◌≡◌ {A = Result Failure Run} (if b then ok r else err schema_invalid) (ok x)
    → (b ≡ true) × (r ≡ x)
checked-valid true r x parsed = (refl, cc)
checked-valid false r x parsed = cc

pub parse_run-valid : (r x : Run) → parse_run r ≡ ok x → (run_valid r ≡ true) × (r ≡ x)
unfolding parse_run
parse_run-valid r x parsed = checked-valid (run_valid r) r x parsed

-- What a plan that went through leaves.
abbrev pub Planned : Run × WorkflowStore → Type 0
Planned p = IsConsistent p.1 × (get p.0.id p.1.runs ≡ some p.0)

created-Planned :
    (setup : PlanSetup) (s : WorkflowStore) (d : Definition) (draft planned : Run)
    → IsConsistent s
    → get draft.id s.runs ≡ none
    → run_valid draft ≡ true
    → draft.state_version ≡ 1
    → apply_event (some draft) (planned_event setup draft) ≡ ok planned
    → OnOk
        (λ s'. Planned (planned, s'))
        (create_workflow s (setup.redact_definition d) d planned (plan_events setup draft))
unfolding plan_events make_event
created-Planned setup s d draft planned c fresh valid first applied =
    OnOk-weaken (λ s'. Planned (planned, s'))
      (create_workflow s (setup.redact_definition d) d planned (plan_events setup draft))
      (create_workflow-Created s (setup.redact_definition d) d planned (plan_events setup draft))
      λ s' done.
        let history = plan_history setup draft planned valid first applied done.valid in
        let free = ap (λ id. get id s.runs) (sym done.own.0) ∙ fresh in
        (
          created-IsConsistent s s' planned (plan_events setup draft) c free history done,
          created_run_stored s s' planned (plan_events setup draft) c free history done,
        )

drafted :
    (setup : PlanSetup) (s : WorkflowStore) (d : Definition) (planned : Run)
    → IsConsistent s
    → get setup.run_id s.runs ≡ none
    → run_valid (draft_run setup d) ≡ true
    → apply_event (some (draft_run setup d)) (planned_event setup (draft_run setup d)) ≡ ok planned
    → OnOk
        (λ s'. Planned (planned, s'))
        (create_workflow s
          (setup.redact_definition d)
          d
          planned
          (plan_events setup (draft_run setup d)))
unfolding draft_run
drafted setup s d planned c fresh valid applied =
    created-Planned setup s d (draft_run setup d) planned c fresh valid refl applied

-- In a consistent store that has no run with the id drawn, a plan that goes through leaves the store
-- consistent, and the run that it returns stored.
pub plan_workflow-Planned :
    (setup : PlanSetup) (s : WorkflowStore) (d : Definition)
    → IsConsistent s
    → get setup.run_id s.runs ≡ none
    → OnOk (λ p. IsConsistent p.1 × (get p.0.id p.1.runs ≡ some p.0)) (plan_workflow setup s d)
unfolding plan_workflow
plan_workflow-Planned setup s d c fresh = OnOk-then Planned (validate_workflow d) _ λ graph _.
    OnOk-then Planned (preflight_nodes setup (values graph.nodes)) _ λ _ _.
      OnOk-then Planned (parse_run (draft_run setup d)) _ λ draft parsed.
        OnOk-then Planned (apply_event (some draft) (planned_event setup draft)) _
          λ planned applied.
            let (valid, same) = parse_run-valid (draft_run setup d) draft parsed in
            OnOk-bind Planned
              (create_workflow s (setup.redact_definition d) d planned (plan_events setup draft))
              (λ s'. ok (planned, s'))
              (subst
                (λ (r : Run).
                  apply_event (some r) (planned_event setup r) ≡ ok planned
                  → OnOk (λ s'. Planned (planned, s'))
                      (create_workflow s (setup.redact_definition d) d planned
                        (plan_events setup r)))
                same (drafted setup s d planned c fresh valid) applied)
              λ s' done. done
