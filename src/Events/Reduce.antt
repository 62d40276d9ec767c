-- ===== src/Events/Reduce.antt =====
-- `applyWorkflowEvent` and `rebuildWorkflow` of packages/runtime-core/src/workflow-events.ts,
-- with the bounds of `WorkflowRunSchema` in packages/protocol/src/index.ts.
use Prim.Native.Char.{code}
use Prim.Native.String as Text
use atlas_mcp.Prelude.{
  ℕ, ◌+◌, String, Bool, true, false, ◌&&◌, Option, none, some, List, [], ◌∷◌, get, put, ltb, leb,
  nat_eq, holds, ◌==◌, if◌then◌else◌, length, every_of, Result, ok, err, ◌>>=◌, ◌>>◌, guard,
  require,
}
use atlas_mcp.Protocol.Failure.{
  Failure, schema_invalid, event_sequence_invalid, event_identity_invalid,
  event_history_missing_created, event_history_empty, event_state_mismatch, event_data_invalid,
  event_type_unknown, event_node_invalid,
}
use atlas_mcp.Protocol.Workflow.{
  WorkflowStatus, WorkflowStatus-discrete, NodeStatus, NodeState, Run, Value, EventType, Event,
  Snapshot,
}

-- `text.length`, in UTF-16 units.
unfoldable pub utf16_length : String → ℕ
utf16_length Text.[] = 0
utf16_length (Text.◌∷◌ c s) = (if ltb (code c) 65536 then 1 else 2) + utf16_length s

abbrev pub fits : ℕ → Option String → Bool
fits n none = true
fits n (some s) = leb (utf16_length s) n

abbrev pub fits_count : ℕ → Option ℕ → Bool
fits_count n none = true
fits_count n (some k) = leb k n

-- The bounds of `WorkflowNodeStateSchema`.
unfoldable pub node_state_valid : NodeState → Bool
node_state_valid s =
    leb (length s.task_ids) 5000
    && fits_count 100 s.iterations
    && fits 2000 s.prompt
    && fits 10000 s.input
    && fits 10000 s.error

-- The bounds of `WorkflowRunSchema`.
unfoldable pub run_valid : Run → Bool
run_valid r =
    ltb 0 r.definition_version
    && ltb 0 r.state_version
    && fits 10000 r.error
    && every_of (λ e. node_state_valid e.1) r.nodes

-- `WorkflowRunSchema.parse`
unfoldable pub parse_run : Run → Result Failure Run
parse_run r = if run_valid r then ok r else err schema_invalid

-- `WorkflowStatusSchema`, on a text
unfoldable pub status_of_text : String → Option WorkflowStatus
status_of_text s =
    if s == "draft"
    then some WorkflowStatus.draft
    else if s == "planned"
    then some WorkflowStatus.planned
    else if s == "awaiting_approval"
    then some WorkflowStatus.awaiting_approval
    else if s == "awaiting_input"
    then some WorkflowStatus.awaiting_input
    else if s == "running"
    then some WorkflowStatus.running
    else if s == "paused"
    then some WorkflowStatus.paused
    else if s == "suspended"
    then some WorkflowStatus.suspended
    else if s == "partially_complete"
    then some WorkflowStatus.partially_complete
    else if s == "verified_complete"
    then some WorkflowStatus.verified_complete
    else if s == "recovery_required"
    then some WorkflowStatus.recovery_required
    else if s == "failed"
    then some WorkflowStatus.failed
    else if s == "cancelled"
    then some WorkflowStatus.cancelled
    else none

-- The text of a workflow status.
unfoldable pub status_text : WorkflowStatus → String
status_text WorkflowStatus.draft = "draft"
status_text WorkflowStatus.planned = "planned"
status_text WorkflowStatus.awaiting_approval = "awaiting_approval"
status_text WorkflowStatus.awaiting_input = "awaiting_input"
status_text WorkflowStatus.running = "running"
status_text WorkflowStatus.paused = "paused"
status_text WorkflowStatus.suspended = "suspended"
status_text WorkflowStatus.partially_complete = "partially_complete"
status_text WorkflowStatus.verified_complete = "verified_complete"
status_text WorkflowStatus.recovery_required = "recovery_required"
status_text WorkflowStatus.failed = "failed"
status_text WorkflowStatus.cancelled = "cancelled"

-- The text of a node's status.
unfoldable pub node_status_text : NodeStatus → String
node_status_text NodeStatus.pending = "pending"
node_status_text NodeStatus.ready = "ready"
node_status_text NodeStatus.awaiting_approval = "awaiting_approval"
node_status_text NodeStatus.awaiting_input = "awaiting_input"
node_status_text NodeStatus.running = "running"
node_status_text NodeStatus.verifying = "verifying"
node_status_text NodeStatus.verified_complete = "verified_complete"
node_status_text NodeStatus.skipped = "skipped"
node_status_text NodeStatus.recovery_required = "recovery_required"
node_status_text NodeStatus.failed = "failed"
node_status_text NodeStatus.cancelled = "cancelled"
node_status_text NodeStatus.compensated = "compensated"

-- A value of the event's data as a text, `undefined` and other values apart.
abbrev pub as_text : Option Value → Option String
as_text (some (Value.str s)) = some s
as_text _ = none

-- `status(data[key], type)`
unfoldable pub parse_status : Event → String → Result Failure WorkflowStatus
unfolding status_of_text
parse_status e key = elim (as_text (get key e.content)) [
  | none ↦ err (event_data_invalid e.type)
  | some s ↦ require (status_of_text s) (event_data_invalid e.type)
]

-- The statuses that the types of an operator's halt, of a cancellation and of a recovery demand.
unfoldable pub target_allowed : EventType → WorkflowStatus → Bool
target_allowed EventType.workflow_cancelled to =
    holds (WorkflowStatus-discrete to WorkflowStatus.cancelled)
target_allowed EventType.recovery_needed to =
    holds (WorkflowStatus-discrete to WorkflowStatus.recovery_required)
target_allowed EventType.workflow_paused to =
    holds (WorkflowStatus-discrete to WorkflowStatus.paused)
target_allowed EventType.workflow_suspended to =
    holds (WorkflowStatus-discrete to WorkflowStatus.suspended)
target_allowed _ to = true

-- The new `error` of a run: `undefined` deletes it, and only a text may replace it.
unfoldable pub parse_error : Event → Result Failure (Option String)
parse_error e = elim (get "error" e.content) [
  | none ↦ ok none
  | some (Value.str s) ↦ ok (some s)
  | some _ ↦ err (event_data_invalid e.type)
]

-- The case of the status changes.
unfoldable pub apply_status : Run → Event → Result Failure Run
apply_status current e = do
  from ← parse_status e "from"
  to ← parse_status e "to"
  guard (holds (WorkflowStatus-discrete current.status from) && target_allowed e.type to)
      event_state_mismatch
  error ← parse_error e
  ok (record current { status = to; error = error })

-- The two fields of a node change, each accepted by its schema or not.
abbrev pub as_node_state : Option Value → Option NodeState
as_node_state (some (Value.node_state s)) = if node_state_valid s then some s else none
as_node_state _ = none

abbrev pub both_of {ℓ κ} : {A : Type ℓ} {B : Type κ} → Option A → Option B → Option (A × B)
both_of (some a) (some b) = some (a, b)
both_of _ _ = none

-- The case of a node change.
unfoldable pub apply_node : Run → Event → Result Failure Run
apply_node current e = do
  (node_id, state) ←
      require (both_of (as_text (get "nodeId" e.content)) (as_node_state (get "state" e.content)))
        (event_data_invalid e.type)
  previous ← require (get node_id current.nodes) (event_node_invalid node_id)
  guard
      (elim (as_text (get "from" e.content)) [
        | none ↦ false
        | some s ↦ node_status_text previous.status == s
      ])
      event_state_mismatch
  ok (record current { nodes = put node_id state current.nodes })

-- The case of a saved checkpoint.
unfoldable pub apply_checkpoint : Run → Event → Result Failure Run
apply_checkpoint current e = elim (get "sequence" e.content) [
  | some (Value.num n) ↦ if leb 1 n then ok current else err (event_data_invalid e.type)
  | _ ↦ err (event_data_invalid e.type)
]

-- The `switch` over the type of an event, for a run that exists.
unfoldable pub apply_type : EventType → Run → Event → Result Failure Run
apply_type EventType.node_changed current e = apply_node current e
apply_type EventType.checkpoint_saved current e = apply_checkpoint current e
apply_type (EventType.unknown t) current e = err (event_type_unknown (EventType.unknown t))
apply_type _ current e = apply_status current e

-- The end of `applyWorkflowEvent`: the version and the time of the event, and the schema.
unfoldable pub stamp : Event → Run → Result Failure Run
stamp e next = parse_run (record next { state_version = e.sequence; updated_at = e.occurred_at })

-- The run that a `workflow.created` event carries.
unfoldable pub created_run : Event → Result Failure Run
created_run e = elim (get "run" e.content) [
  | some (Value.run r) ↦ if run_valid r then ok r else err (event_data_invalid e.type)
  | _ ↦ err (event_data_invalid e.type)
]

unfoldable pub apply_created : Event → Result Failure Run
apply_created e = do
  r ← created_run e
  guard
      ((r.id == e.aggregate_id) && (r.trace_id == e.trace_id) && nat_eq r.state_version e.sequence)
      event_identity_invalid
  ok r

-- An event on a run that exists. `workflow.created` is refused by then.
unfoldable pub apply_next : Run → Event → Result Failure Run
apply_next current e = do
  guard ((current.id == e.aggregate_id) && (current.trace_id == e.trace_id)) event_identity_invalid
  next ← apply_type e.type current e
  stamp e next

abbrev pub is_created : EventType → Bool
is_created EventType.created = true
is_created _ = false

abbrev pub expected_sequence : Option Run → ℕ
expected_sequence none = 1
expected_sequence (some r) = r.state_version + 1

-- `applyWorkflowEvent`. An event is a value of its schema, so `WorkflowEventSchema.parse` and
-- `record(data)` return it.
unfoldable pub apply_event : Option Run → Event → Result Failure Run
apply_event current e = do
  guard (nat_eq e.sequence (expected_sequence current)) event_sequence_invalid
  elim current [
    | none ↦ if is_created e.type then apply_created e else err event_history_missing_created
    | some r ↦ if is_created e.type then err event_sequence_invalid else apply_next r e
  ]

-- The loop of `rebuildWorkflow`.
unfoldable pub apply_events : Option Run → List Event → Result Failure (Option Run)
apply_events current [] = ok current
apply_events current (e ∷ es) = apply_event current e >>= λ r. apply_events (some r) es

-- `WorkflowSnapshotSchema.parse(snapshot).run`
unfoldable pub snapshot_run : Option Snapshot → Result Failure (Option Run)
snapshot_run none = ok none
snapshot_run (some s) =
    if run_valid s.run && nat_eq s.sequence s.run.state_version
    then ok (some s.run)
    else err schema_invalid

-- `rebuildWorkflow`
unfoldable pub rebuild : Option Snapshot → List Event → Result Failure Run
rebuild snapshot events = do
  start ← snapshot_run snapshot
  last ← apply_events start events
  r ← require last event_history_empty
  parse_run r
