-- ===== src/Workflow/Conflicts.antt =====
-- Writers that compete for one run, in `transitionWorkflow` of packages/storage-sqlite/src/index.ts.
use atlas_mcp.Prelude.{
  ℕ, ◌<◌, ◌+◌, String, ◌≡◌, ◌≢◌, ap, ◌∙◌, List, [], ◌∷◌, get, get-put_self, length, ok, OnOk,
  OnOk-at, arith,
}
use atlas_mcp.Protocol.Workflow.{Run, Event}
use atlas_mcp.Events.Reduce.{parse_run}
use atlas_mcp.Store.Workflows.{WorkflowStore, assert_events, transition_workflow}
use atlas_mcp.Workflow.Consistency.{Committed, transition_workflow-Committed}

counted_on : (n m : ℕ) (e : Event) (es : List Event) → m ≡ n + length (e ∷ es) → n < m
counted_on n m e es h = omega (arith, h)

assert_events-rises :
    (id trace : String) (n m : ℕ) (es : List Event)
    → OnOk (λ u. n < m) (assert_events id trace n m es)
unfolding assert_events
assert_events-rises id trace n m [] = ground arith
assert_events-rises id trace n m (e ∷ es) = ground (arith, counted_on n m e es)

transition_workflow-rises :
    (s : WorkflowStore) (id : String) (expected : ℕ) (run : Run) (events : List Event)
    → OnOk (λ s'. expected < run.state_version) (transition_workflow s id expected run events)
unfolding transition_workflow parse_run
transition_workflow-rises s id expected run events =
    ground (arith, assert_events-rises id run.trace_id expected run.state_version events)

-- Of two writers that both read the run at one version, the second to store is refused, whatever
-- runs and events they store.
pub transition_workflow-excludes :
    (s after last : WorkflowStore) (id : String) (expected : ℕ) (run other : Run)
    (events others : List Event)
    → transition_workflow s id expected run events ≡ ok after
    → transition_workflow after id expected other others ≢ ok last
transition_workflow-excludes s after last id expected run other events others h k =
    let first =
      OnOk-at (Committed s id expected run events) (transition_workflow s id expected run events)
        after (transition_workflow-Committed s id expected run events) h in
    let second =
      OnOk-at (Committed after id expected other others)
        (transition_workflow after id expected other others) last
        (transition_workflow-Committed after id expected other others) k in
    let rises =
      OnOk-at (λ s'. expected < run.state_version) (transition_workflow s id expected run events)
        after (transition_workflow-rises s id expected run events) h in
    let same = second.version run (ap (get id) first.runs ∙ get-put_self id run s.runs) in
    omega (arith, rises, same)
