-- ===== src/Workflow/Transition.antt =====
-- `transition` and `makeEvent` of packages/runtime-core/src/workflow-controller.ts: a change of a
-- run is a draft with the events that it emits, and is stored only if the events lead to the draft.
use atlas_mcp.Prelude.{
  ℕ, ◌+◌, String, Bool, some, List, [], ◌∷◌, Map, holds, if◌then◌else◌, length, sort, text_le,
  Result, ok, ◌>>=◌, ◌>>◌, guard, require,
}
use atlas_mcp.Protocol.Failure.{Failure, projection_event_mismatch, workflow_not_found}
use atlas_mcp.Protocol.Workflow.{Run, Run-discrete, NodeState, Event, EventType, Value}
use atlas_mcp.Events.Reduce.{apply_event, parse_run}
use atlas_mcp.Store.Workflows.{WorkflowStore, get_run, transition_workflow, is_empty}

-- What `emit` is called with.
abbrev pub Emitted : Type 0
Emitted = EventType × Map Value

-- The draft that a mutation leaves, and what it emitted.
pub record Draft : Type 0 where
  pub run : Run
  pub emitted : List Emitted

-- The time at which the event of a number is made.
abbrev pub Clock : Type 0
Clock = ℕ → ℕ

-- `makeEvent`, less the fresh id
unfoldable pub make_event : Clock → Run → ℕ → Emitted → Event
make_event clock run n (type, content) = record {
  aggregate_id = run.id;
  sequence = n;
  trace_id = run.trace_id;
  type = type;
  content = content;
  occurred_at = clock n;
}

-- The events of a mutation, numbered from `n + 1` on.
unfoldable pub make_events : Clock → Run → ℕ → List Emitted → List Event
make_events clock run n [] = []
make_events clock run n (x ∷ xs) = make_event clock run (n + 1) x ∷ make_events clock run (n + 1) xs

-- `for (const event of events) rebuilt = applyWorkflowEvent(rebuilt, event)`
unfoldable pub replay_from : Run → List Event → Result Failure Run
replay_from run [] = ok run
replay_from run (e ∷ es) = apply_event (some run) e >>= λ next. replay_from next es

-- `canonicalJson` sorts the keys of an object: it is the same text for two runs exactly when they
-- are equal up to the order of their nodes.
abbrev pub by_key : String × NodeState → String × NodeState → Bool
by_key a b = text_le a.0 b.0

unfoldable pub canonical : Run → Run
canonical r = record r { nodes = sort by_key r.nodes }

unfoldable pub same_json : Run → Run → Bool
same_json a b = holds (Run-discrete (canonical a) (canonical b))

-- `status`
unfoldable pub status : WorkflowStore → String → Result Failure Run
status s id = require (get_run s id) workflow_not_found

-- What a transition stores, once something was emitted.
unfoldable pub store_transition :
    Clock → WorkflowStore → Run → Draft → Result Failure (Run × WorkflowStore)
store_transition clock s current d = do
  let events = make_events clock current current.state_version d.emitted
  let version = current.state_version + length events
  expected ← parse_run (record d.run { state_version = version; updated_at = clock version })
  rebuilt ← replay_from current events
  guard (same_json rebuilt expected) projection_event_mismatch
  s' ← transition_workflow s current.id current.state_version rebuilt events
  ok (rebuilt, s')

-- `transition`
unfoldable pub transition :
    Clock → WorkflowStore → Run → Draft → Result Failure (Run × WorkflowStore)
transition clock s current d =
    if is_empty d.emitted then ok (current, s) else store_transition clock s current d
