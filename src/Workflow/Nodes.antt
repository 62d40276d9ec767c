-- ===== src/Workflow/Nodes.antt =====
-- States of nodes from states of tasks, in packages/runtime-core/src/workflow-controller.ts:
-- `nodeStateForTask`, `aggregateNodeState` and `recoveredNodeState`.
use atlas_mcp.Prelude.{
  ℕ, ◌+◌, ◌-◌, ◌/◌, String, Bool, true, false, Option, none, some, List, [], ◌∷◌, ◌++◌, map, holds,
  if◌then◌else◌, length, some_of, every_of, find_of,
}
use atlas_mcp.Protocol.Effect.{ApprovalChallenge}
use atlas_mcp.Protocol.Task.{TaskRequest, TaskRecord, TaskStatus, TaskStatus-discrete}
use atlas_mcp.Protocol.Workflow.{NodeState, NodeStatus, NodeStatus-discrete, NodeKind}

-- `{ status, taskIds }`
abbrev pub bare : NodeStatus → List String → NodeState
bare status ids = record {
  status = status;
  task_ids = ids;
  approval = none;
  iterations = none;
  prompt = none;
  input = none;
  error = none;
}

abbrev pub with_error : NodeStatus → List String → Option String → NodeState
with_error status ids error = record (bare status ids) { error = error }

abbrev pub with_approval : List String → Option ApprovalChallenge → NodeState
with_approval ids approval = record (bare NodeStatus.awaiting_approval ids) { approval = approval }

-- `nodeStateForTask`
unfoldable pub node_state_for_task : TaskRecord → (planned_is_complete : Bool) → NodeState
node_state_for_task t planned_is_complete = elim t.status [
  | TaskStatus.verified_success ↦ bare NodeStatus.verified_complete (t.id ∷ [])
  | TaskStatus.planned ↦
      bare (if planned_is_complete then NodeStatus.verified_complete else NodeStatus.ready)
        (t.id ∷ [])
  | TaskStatus.awaiting_approval ↦ with_approval (t.id ∷ []) t.approval
  | TaskStatus.recovery_required ↦ with_error NodeStatus.recovery_required (t.id ∷ []) t.error
  | TaskStatus.cancelled ↦ bare NodeStatus.cancelled (t.id ∷ [])
  | _ ↦ with_error NodeStatus.failed (t.id ∷ []) t.error
]

unfoldable pub ids_of : List NodeState → List String
ids_of [] = []
ids_of (s ∷ ss) = s.task_ids ++ ids_of ss

abbrev pub has_status : NodeStatus → NodeState → Bool
has_status status s = holds (NodeStatus-discrete s.status status)

-- The loop of `aggregateNodeState` over the statuses that stop a parallel node
unfoldable pub aggregate_over : List NodeStatus → List NodeState → NodeState
aggregate_over [] states = bare NodeStatus.verified_complete (ids_of states)
aggregate_over (status ∷ more) states =
    let rest = aggregate_over more states in
    elim (find_of (has_status status) states) [
      | none ↦ rest
      | some s ↦ record s { task_ids = ids_of states }
    ]

abbrev pub stopping : List NodeStatus
stopping =
    NodeStatus.failed ∷ NodeStatus.recovery_required ∷ NodeStatus.awaiting_approval
    ∷ NodeStatus.cancelled ∷ []

-- `aggregateNodeState`
unfoldable pub aggregate_node_state : List NodeState → NodeState
aggregate_node_state states = aggregate_over stopping states

abbrev pub in_status : TaskStatus → TaskRecord → Bool
in_status status t = holds (TaskStatus-discrete t.status status)

-- `["failed", "partial", "budget_exhausted", "policy_blocked"]`
unfoldable pub is_failed_task : TaskRecord → Bool
is_failed_task t = elim t.status [
  | TaskStatus.failed ↦ true
  | TaskStatus.partial ↦ true
  | TaskStatus.budget_exhausted ↦ true
  | TaskStatus.policy_blocked ↦ true
  | _ ↦ false
]

unfoldable pub first_error : List TaskRecord → Option String
first_error [] = none
first_error (t ∷ ts) = let rest = first_error ts in elim t.error [ none ↦ rest | some e ↦ some e ]

-- `Math.ceil(tasks / body)`; `n / 0` is infinite in the source, and a schema asks for a body.
unfoldable pub rounds : ℕ → ℕ → ℕ
rounds tasks body = (tasks + body - 1) / body

-- The state of a node whose tasks have all succeeded
unfoldable pub succeeded_state : NodeKind → List TaskRecord → NodeState
succeeded_state (NodeKind.compensation target request) tasks =
    bare NodeStatus.compensated (map (λ t. t.id) tasks)
succeeded_state (NodeKind.bounded_loop body limit until) tasks =
    record (bare NodeStatus.verified_complete (map (λ t. t.id) tasks)) {
      iterations = some (rounds (length tasks) (length body));
    }
succeeded_state _ tasks = bare NodeStatus.verified_complete (map (λ t. t.id) tasks)

-- `recoveredNodeState` after its searches for a task to be reconciled, approved, or failed
unfoldable pub settled_state : NodeKind → List TaskRecord → NodeState
settled_state kind tasks =
    if some_of (in_status TaskStatus.planned) tasks
    then with_error NodeStatus.pending (map (λ t. t.id) tasks) (first_error tasks)
    else if every_of (in_status TaskStatus.verified_success) tasks
    then succeeded_state kind tasks
    else bare NodeStatus.cancelled (map (λ t. t.id) tasks)

unfoldable pub failed_or_settled : NodeKind → List TaskRecord → Option TaskRecord → NodeState
failed_or_settled kind tasks none = settled_state kind tasks
failed_or_settled kind tasks (some t) = with_error NodeStatus.failed (map (λ x. x.id) tasks) t.error

unfoldable pub awaiting_or_failed : NodeKind → List TaskRecord → Option TaskRecord → NodeState
awaiting_or_failed kind tasks none = failed_or_settled kind tasks (find_of is_failed_task tasks)
awaiting_or_failed kind tasks (some t) = with_approval (map (λ x. x.id) tasks) t.approval

unfoldable pub recovery_or_awaiting : NodeKind → List TaskRecord → Option TaskRecord → NodeState
recovery_or_awaiting kind tasks none =
    awaiting_or_failed kind tasks (find_of (in_status TaskStatus.awaiting_approval) tasks)
recovery_or_awaiting kind tasks (some t) =
    with_error NodeStatus.recovery_required (map (λ x. x.id) tasks) t.error

-- `recoveredNodeState`
unfoldable pub recovered_node_state : NodeKind → List TaskRecord → NodeState → NodeState
recovered_node_state kind [] previous = previous
recovered_node_state kind (t ∷ ts) previous =
    recovery_or_awaiting kind (t ∷ ts) (find_of (in_status TaskStatus.recovery_required) (t ∷ ts))

-- `requestsFor`
unfoldable pub concat_requests : List (List TaskRequest) → List TaskRequest
concat_requests [] = []
concat_requests (b ∷ bs) = b ++ concat_requests bs

unfoldable pub requests_for : NodeKind → List TaskRequest
requests_for (NodeKind.operation request) = request ∷ []
requests_for (NodeKind.compensation target request) = request ∷ []
requests_for (NodeKind.condition source predicate when_true when_false) = when_true ++ when_false
requests_for (NodeKind.parallel branches) = concat_requests branches
requests_for (NodeKind.bounded_loop body limit until) = body
requests_for _ = []
