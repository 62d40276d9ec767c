-- ===== src/Workflow/Control.antt =====
-- The operator's controls of packages/runtime-core/src/workflow-controller.ts: `pause`, `suspend`,
-- `resume` and `cancel`.
use atlas_mcp.Prelude.{
  String, Bool, true, false, none, List, [], ◌∷◌, ◌++◌, Map, holds, if◌then◌else◌, some_of, Result,
  ok, err, ◌>>=◌, ◌>>◌,
}
use atlas_mcp.Protocol.Failure.{Failure, workflow_not_paused, workflow_not_haltable}
use atlas_mcp.Protocol.Workflow.{
  Run, NodeState, NodeStatus, NodeStatus-discrete, WorkflowStatus, WorkflowStatus-discrete,
  EventType, Value,
}
use atlas_mcp.Events.Reduce.{status_text, node_status_text}
use atlas_mcp.Store.Workflows.{WorkflowStore}
use atlas_mcp.Workflow.Transition.{Clock, Draft, Emitted, status, transition}

-- `{ from, to }`
abbrev pub from_to : WorkflowStatus → WorkflowStatus → Map Value
from_to from to = ("from", Value.str (status_text from)) ∷ ("to", Value.str (status_text to)) ∷ []

-- The two halts.
pub data Halt : Type 0 where
  pausing suspending : Halt

abbrev pub halt_status : Halt → WorkflowStatus
halt_status pausing = WorkflowStatus.paused
halt_status suspending = WorkflowStatus.suspended

abbrev pub halt_event : Halt → EventType
halt_event pausing = EventType.workflow_paused
halt_event suspending = EventType.workflow_suspended

abbrev pub is_terminal : WorkflowStatus → Bool
is_terminal WorkflowStatus.verified_complete = true
is_terminal WorkflowStatus.cancelled = true
is_terminal WorkflowStatus.failed = true
is_terminal _ = false

-- The mutation of `halt`.
unfoldable pub halt_draft : Halt → Run → Draft
halt_draft h current = record {
  run = record current { status = halt_status h };
  emitted = (halt_event h, from_to current.status (halt_status h)) ∷ [];
}

-- `halt`, and with it `pause` and `suspend`
unfoldable pub halt : Clock → WorkflowStore → String → Halt → Result Failure (Run × WorkflowStore)
halt clock s id h = do
  current ← status s id
  if holds (WorkflowStatus-discrete current.status (halt_status h))
      then ok (current, s)
      else if is_terminal current.status
      then err workflow_not_haltable
      else transition clock s current (halt_draft h current)

abbrev pub is_halted : WorkflowStatus → Bool
is_halted WorkflowStatus.paused = true
is_halted WorkflowStatus.suspended = true
is_halted _ = false

abbrev pub some_node : NodeStatus → Run → Bool
some_node st r = some_of (λ e. holds (NodeStatus-discrete e.1.status st)) r.nodes

-- What a resumed run waits for.
unfoldable pub resumed_status : Run → WorkflowStatus
resumed_status r =
    if some_node NodeStatus.awaiting_approval r
    then WorkflowStatus.awaiting_approval
    else if some_node NodeStatus.awaiting_input r
    then WorkflowStatus.awaiting_input
    else WorkflowStatus.running

unfoldable pub resume_draft : Run → Draft
resume_draft current = record {
  run = record current { status = resumed_status current; error = none };
  emitted = (EventType.resumed, from_to current.status (resumed_status current)) ∷ [];
}

-- `resume`
unfoldable pub resume : Clock → WorkflowStore → String → Result Failure (Run × WorkflowStore)
resume clock s id = do
  current ← status s id
  if is_halted current.status
      then transition clock s current (resume_draft current)
      else err workflow_not_paused

-- The nodes that `cancel` stops.
abbrev pub is_cancellable : NodeStatus → Bool
is_cancellable NodeStatus.pending = true
is_cancellable NodeStatus.ready = true
is_cancellable NodeStatus.awaiting_approval = true
is_cancellable _ = false

unfoldable pub cancel_nodes : Map NodeState → Map NodeState
cancel_nodes [] = []
cancel_nodes ((id, n) ∷ m) =
    (id, (if is_cancellable n.status then record n { status = NodeStatus.cancelled } else n))
    ∷ cancel_nodes m

-- The events that the loop over the nodes emits.
unfoldable pub cancel_events : Map NodeState → List Emitted
cancel_events [] = []
cancel_events ((id, n) ∷ m) =
    let rest = cancel_events m in
    if is_cancellable n.status
    then (
      EventType.node_changed,
      ("nodeId", Value.str id)
          ∷ ("from", Value.str (node_status_text n.status))
          ∷ ("state", Value.node_state (record n { status = NodeStatus.cancelled }))
          ∷ [],
    )
      ∷ rest
    else rest

-- The tasks that the loop cancels on the way.
unfoldable pub cancelled_tasks : Map NodeState → List String
cancelled_tasks [] = []
cancelled_tasks ((id, n) ∷ m) =
    let rest = cancelled_tasks m in if is_cancellable n.status then n.task_ids ++ rest else rest

unfoldable pub cancel_draft : Run → Draft
cancel_draft current = record {
  run = record current {
    nodes = cancel_nodes current.nodes;
    status = WorkflowStatus.cancelled;
    error = none;
  };
  emitted =
      cancel_events current.nodes
      ++ (EventType.workflow_cancelled, from_to current.status WorkflowStatus.cancelled) ∷ [];
}

abbrev pub is_over : WorkflowStatus → Bool
is_over WorkflowStatus.verified_complete = true
is_over WorkflowStatus.cancelled = true
is_over _ = false

-- `T` is the state of the task controller, and `cancel_task` its `cancel`.
module _ {T : Type 0} (cancel_task : String → T → Result Failure (Unit {0}) × T) where
  -- The calls of `tasks.cancel`; one that throws ends the loop.
  unfoldable pub cancel_tasks : List String → T → Result Failure (Unit {0}) × T
  cancel_tasks [] t = (ok tt, t)
  cancel_tasks (i ∷ is) t =
      let (r, t') = cancel_task i t in
      let rest = cancel_tasks is t' in elim r [ ok _ ↦ rest | err e ↦ (err e, t') ]

  -- `cancel`
  unfoldable pub cancel :
      Clock → WorkflowStore → String → T → Result Failure (Run × WorkflowStore) × T
  cancel clock s id t = elim (status s id) [
    | err e ↦ (err e, t)
    | ok current ↦
        if is_over current.status
        then (ok (current, s), t)
        else (let (r, t') = cancel_tasks (cancelled_tasks current.nodes) t in
            ((r >> transition clock s current (cancel_draft current)), t'))
  ]
