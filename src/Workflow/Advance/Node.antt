-- ===== src/Workflow/Advance/Node.antt =====
-- `advanceNode` of packages/runtime-core/src/workflow-controller.ts.
use atlas_mcp.Prelude.{
  ℕ, String, Bool, true, false, not, ◌&&◌, Option, none, some, List, [], ◌∷◌, get, ◌==◌, ltb,
  if◌then◌else◌, includes, find_of,
}
use atlas_mcp.Policy.Platform.{concat}
use atlas_mcp.Events.Reduce.{utf16_length}
use atlas_mcp.Protocol.Effect.{ApprovalResponse}
use atlas_mcp.Protocol.Failure.{
  approval_target_missing, workflow_condition_source_unavailable, workflow_input_too_long,
  workflow_input_not_a_choice,
}
use atlas_mcp.Protocol.Task.{EvidencePredicate}
use atlas_mcp.Protocol.Workflow.{NodeState, NodeStatus, NodeKind, Node, Definition, Run}
use atlas_mcp.Store.Workflows.{is_empty}
use atlas_mcp.Workflow.Actions.{Action, pure, throw, require_some, ◌>>=◌}
use atlas_mcp.Workflow.Nodes.{bare, has_status}
use atlas_mcp.Workflow.Keys.{Branch, is_node}
use atlas_mcp.Workflow.Advance.{
  TaskPort, NodeAdvance, advanced, nth, run_task, identity_at, run_sequential, run_parallel,
  run_loop,
}

-- `WorkflowInput`
pub record WorkflowInput : Type 0 where
  pub node_id : String
  pub value : String

-- `candidate.type === "approval" && candidate.forNodeId === node.id`
unfoldable pub approves : String → Node → Bool
approves id n = elim n.kind [ NodeKind.approval target ↦ target == id | _ ↦ false ]

-- `run.nodes[id]?.taskIds[0]`
unfoldable pub first_task : Run → String → Option String
first_task run id = elim (get id run.nodes) [ none ↦ none | some s ↦ nth 0 s.task_ids ]

-- `approvedTaskId ?? state.taskIds[0]`
unfoldable pub approved_task : Run → NodeState → Option Node → Option String
approved_task run state none = nth 0 state.task_ids
approved_task run state (some n) = elim (first_task run n.id) [
  | none ↦ nth 0 state.task_ids
  | some id ↦ some id
]

-- A state that waits for a person, and one that a person completed
abbrev pub awaiting_input : String → NodeState
awaiting_input prompt = record (bare NodeStatus.awaiting_input []) { prompt = some prompt }

abbrev pub supplied_state : String → String → NodeState
supplied_state prompt input = record (bare NodeStatus.verified_complete []) {
  prompt = some prompt;
  input = some input;
}

-- `verified_complete` as `compensated`
unfoldable pub compensated : NodeAdvance → NodeAdvance
compensated result =
    if has_status NodeStatus.verified_complete result.state
    then record result { state = record result.state { status = NodeStatus.compensated } }
    else result

-- `${assignee}: ${goal}`
unfoldable pub label : String → String → String
label assignee goal = concat (assignee ∷ ": " ∷ goal ∷ [])

-- `workflow_delegation_unverified:${node.id}`
unfoldable pub delegation_error : String → String
delegation_error id = concat ("workflow_delegation_unverified:" ∷ id ∷ [])

module _ {T : Type 0} (port : TaskPort T) where
  -- `recordedInput`
  unfoldable pub recorded_input : String → String
  recorded_input value = port.slice_text 10000 (port.redact_text value)

  unfoldable pub accept_input :
      String → String → List String → ℕ → Option WorkflowInput → Action T NodeAdvance
  accept_input id prompt choices max_length none = pure (advanced (awaiting_input prompt) [])
  accept_input id prompt choices max_length (some i) =
      if ltb max_length (utf16_length i.value)
      then throw (workflow_input_too_long id)
      else if not (is_empty choices) && not (includes i.value choices)
      then throw (workflow_input_not_a_choice id)
      else pure (advanced (supplied_state prompt (recorded_input i.value)) [])

  -- `verification.verified`, for predicates that are not none
  unfoldable pub delegation_proved : List EvidencePredicate → Action T Bool
  delegation_proved [] = pure true
  delegation_proved (p ∷ ps) = port.verify_standalone (p ∷ ps)

  unfoldable pub accept_delegation :
      String → String → List EvidencePredicate → Option WorkflowInput → Action T NodeAdvance
  accept_delegation id prompt evidence none = pure (advanced (awaiting_input prompt) [])
  accept_delegation id prompt evidence (some i) = do
    proved ← delegation_proved evidence
    pure (
        if proved
        then advanced (supplied_state prompt (recorded_input i.value)) []
        else advanced
            (record (bare NodeStatus.failed []) {
              prompt = some prompt;
              error = some (delegation_error id);
            })
            [])

  module _ (definition : Definition) (run : Run) (approvals : List ApprovalResponse)
      (inputs : List WorkflowInput) where
    -- The task of the operation that an approval is for
    unfoldable pub plan_approval : String → NodeState → Option Node → Action T NodeAdvance
    plan_approval id state none = throw (approval_target_missing id)
    plan_approval id state (some target) = elim target.kind [
      | NodeKind.operation request ↦
          run_task port request (nth 0 state.task_ids) approvals false
            (identity_at port approvals run.id target.id 0 Branch.operation)
      | _ ↦ throw (approval_target_missing id)
    ]

    -- `advanceNode`
    unfoldable pub advance_node : String → NodeKind → NodeState → Action T NodeAdvance
    advance_node id (NodeKind.operation request) state =
        run_task port request (approved_task run state (find_of (approves id) definition.nodes))
          approvals true (identity_at port approvals run.id id 0 Branch.operation)
    advance_node id (NodeKind.approval target) state =
        plan_approval id state (find_of (is_node target) definition.nodes)
    advance_node id (NodeKind.condition source predicate when_true when_false) state = do
      task ← require_some (first_task run source) (workflow_condition_source_unavailable id)
      held ← port.verify_persisted task predicate
      run_sequential port approvals run.id id held (if held then when_true else when_false) state
    advance_node id (NodeKind.parallel branches) state =
        run_parallel port approvals run.id id branches state
    advance_node id (NodeKind.bounded_loop body limit until) state =
        run_loop port approvals run.id id body limit until state
    advance_node id (NodeKind.compensation target request) state = do
      result ←
          run_task port request (nth 0 state.task_ids) approvals true
            (identity_at port approvals run.id id 0 Branch.compensation)
      pure (compensated result)
    advance_node id NodeKind.checkpoint state =
        pure
          (record { state = bare NodeStatus.verified_complete []; tasks = []; checkpoint = true })
    advance_node id (NodeKind.human_input prompt choices max_length) state =
        accept_input id prompt choices max_length (find_of (λ i. i.node_id == id) inputs)
    advance_node id (NodeKind.delegation assignee goal evidence) state =
        accept_delegation id (port.slice_text 2000 (label assignee goal)) evidence
          (find_of (λ i. i.node_id == id) inputs)
