-- ===== src/Workflow/Advance/Once.antt =====
-- `plan` and `advanceOnce` of packages/runtime-core/src/workflow-controller.ts: which nodes run, and
-- the transition that their results make.
use atlas_mcp.Prelude.{
  String, Bool, true, false, not, ◌&&◌, ◌||◌, Option, none, some, List, [], ◌∷◌, ◌++◌, map, reverse,
  Map, get, put, values, ◌==◌, holds, if◌then◌else◌, or_else, some_of, filter_of, find_of, sort,
  text_le, Result, require,
}
use atlas_mcp.Protocol.Effect.{ApprovalResponse}
use atlas_mcp.Protocol.Failure.{Failure, workflow_payload_not_found, thrown}
use atlas_mcp.Protocol.Workflow.{
  NodeState, NodeStatus, NodeKind, Node, Definition, Run, EventType, Value, WorkflowStatus,
  WorkflowStatus-discrete,
}
use atlas_mcp.Events.Reduce.{node_status_text}
use atlas_mcp.Store.Workflows.{WorkflowStore, get_payload}
use atlas_mcp.Tasks.Receipts.{CertificateResult}
use atlas_mcp.Workflow.Transition.{Draft, Emitted}
use atlas_mcp.Workflow.Control.{from_to}
use atlas_mcp.Workflow.Graph.{Graph}
use atlas_mcp.Workflow.Ready.{ready_node_ids, compensates}
use atlas_mcp.Workflow.Nodes.{bare, has_status}
use atlas_mcp.Workflow.Keys.{Branch}
use atlas_mcp.Workflow.Statuses.{derive_status, state_in}
use atlas_mcp.Workflow.Actions as Call
use atlas_mcp.Workflow.Actions.{Action, for_each}
use atlas_mcp.Workflow.Advance.{TaskPort, NodeAdvance, advanced, nth, run_task, identity_at}
use atlas_mcp.Workflow.Advance.Node.{WorkflowInput, advance_node, compensated}

-- `loadDefinition`; the payload of a definition is what its seal opens to
unfoldable pub load_definition : WorkflowStore → Run → Result Failure Definition
load_definition s run =
    require (get_payload s run.definition_id run.definition_version) workflow_payload_not_found

-- The compensations that a failed run has left to do: pending or waiting for an approval, for a node
-- that is complete.
unfoldable pub rolls_back : Map NodeState → Node → Bool
rolls_back states n = elim n.kind [
  | NodeKind.compensation target request ↦
      (state_in NodeStatus.pending (get n.id states)
        || state_in NodeStatus.awaiting_approval (get n.id states))
      && state_in NodeStatus.verified_complete (get target states)
  | _ ↦ false
]

-- `rollback`, of a failed run
unfoldable pub rollback_of : Run → Definition → List String
rollback_of current d = reverse (map (λ n. n.id) (filter_of (rolls_back current.nodes) d.nodes))

-- The nodes that wait for a person
unfoldable pub awaits_person : Map NodeState → Node → Bool
awaits_person states n =
    not (compensates n.kind)
    && (state_in NodeStatus.awaiting_approval (get n.id states)
        || state_in NodeStatus.awaiting_input (get n.id states))

unfoldable pub awaiting_of : Graph → Map NodeState → List String
awaiting_of graph states =
    sort text_le (map (λ n. n.id) (filter_of (awaits_person states) (values graph.nodes)))

abbrev pub unless_empty : List String → List String → List String
unless_empty [] rest = rest
unless_empty (x ∷ xs) rest = x ∷ xs

-- `nodeIds`; a failed run only rolls back
unfoldable pub chosen_nodes : Run → Definition → Graph → List String
chosen_nodes current d graph =
    if holds (WorkflowStatus-discrete current.status WorkflowStatus.failed)
    then rollback_of current d
    else unless_empty (awaiting_of graph current.nodes)
        (ready_node_ids (values graph.nodes) current.nodes)

abbrev pub NodeResult : Type 0
NodeResult = String × NodeAdvance

-- `run.nodes[id]!`; each node of the definition has a state
abbrev pub state_of : Run → String → NodeState
state_of run id = or_else (get id run.nodes) (bare NodeStatus.pending [])

-- The state of a compensation's target after this advance
unfoldable pub result_state : Map NodeState → List NodeResult → String → Option NodeState
result_state states results id = elim (find_of (λ r. r.0 == id) results) [
  | none ↦ get id states
  | some r ↦ some r.1.state
]

abbrev pub some_failed : List NodeResult → Bool
some_failed results = some_of (λ r. has_status NodeStatus.failed r.1.state) results

abbrev pub skipped_result : String → NodeResult
skipped_result id = (id, advanced (bare NodeStatus.skipped []) [])

module _ {T : Type 0} (port : TaskPort T) (current : Run) (approvals : List ApprovalResponse) where
  -- One compensation after a failure: run if its target is complete, skipped otherwise
  unfoldable pub compensate_node : List NodeResult → String → NodeKind → Action T (List NodeResult)
  compensate_node results id (NodeKind.compensation target request) =
      if not (state_in NodeStatus.pending (get id current.nodes))
      then Call.pure results
      else if not
          (state_in NodeStatus.verified_complete (result_state current.nodes results target))
      then Call.pure (results ++ (skipped_result id ∷ []))
      else Call.◌>>=◌
          (run_task port request (nth 0 (state_of current id).task_ids) approvals true
            (identity_at port approvals current.id id 0 Branch.compensation))
          (λ result. Call.pure (results ++ ((id, compensated result) ∷ [])))
  compensate_node results id _ = Call.pure results

  -- `for (const node of [...definition.nodes].reverse())`
  unfoldable pub compensate_nodes : List NodeResult → List Node → Action T (List NodeResult)
  compensate_nodes results [] = Call.pure results
  compensate_nodes results (n ∷ ns) =
      Call.◌>>=◌ (compensate_node results n.id n.kind) (λ more. compensate_nodes more ns)

  unfoldable pub advance_chosen :
      Definition → List WorkflowInput → String → Option Node → Action T NodeResult
  advance_chosen d inputs id none = Call.throw (thrown "no node")
  advance_chosen d inputs id (some n) =
      Call.◌>>=◌ (advance_node port d current approvals inputs n.id n.kind (state_of current id))
        (λ result. Call.pure (id, result))

  -- The results of the nodes, and of the compensations when one has failed
  unfoldable pub node_results :
      Definition → Graph → List WorkflowInput → List String → Action T (List NodeResult)
  node_results d graph inputs ids =
      Call.◌>>=◌ (for_each (λ id. advance_chosen d inputs id (get id graph.nodes)) ids) (λ results.
        if some_failed results
        then compensate_nodes results (reverse d.nodes)
        else Call.pure results)

-- What one write to `draft.nodes` emits
abbrev pub node_changed : String → NodeStatus → NodeState → Emitted
node_changed id from state = (
  EventType.node_changed,
  ("nodeId", Value.str id)
      ∷ ("from", Value.str (node_status_text from))
      ∷ ("state", Value.node_state state)
      ∷ [],
)

-- A draft that is being changed, with what was emitted so far
unfoldable pub set_node : String → NodeState → Draft → Draft
set_node id state d = record {
  run = record d.run { nodes = put id state d.run.nodes };
  emitted = d.emitted ++ (node_changed id (state_of d.run id).status state ∷ []);
}

unfoldable pub set_results : List NodeResult → Draft → Draft
set_results [] d = d
set_results ((id, result) ∷ more) d = set_results more (set_node id result.state d)

abbrev pub is_text : String → Option Value → Bool
is_text id (some (Value.str x)) = x == id
is_text id _ = false

-- An event that was emitted with a state holds the object that the draft holds, so it changes with it.
unfoldable pub share_state : String → NodeState → Emitted → Emitted
share_state id state (type, content) =
    if is_text id (get "nodeId" content)
    then (type, put "state" (Value.node_state state) content)
    else (type, content)

abbrev pub shared : String → NodeState → Draft → Draft
shared id state d = record d { emitted = map (share_state id state) d.emitted }

abbrev pub skipped_state : NodeState → NodeState
skipped_state state = record state { status = NodeStatus.skipped }

-- The compensations that a complete run does not need; the source changes the state in place
unfoldable pub skip_node : Node → Draft → Draft
skip_node n d =
    if compensates n.kind && has_status NodeStatus.pending (state_of d.run n.id)
    then set_node n.id (skipped_state (state_of d.run n.id))
        (shared n.id (skipped_state (state_of d.run n.id)) d)
    else d

unfoldable pub skip_nodes : List Node → Draft → Draft
skip_nodes [] d = d
skip_nodes (n ∷ ns) d = skip_nodes ns (skip_node n d)

unfoldable pub set_status : WorkflowStatus → Draft → Draft
set_status to d = if holds (WorkflowStatus-discrete to d.run.status) then d else record {
  run = record d.run { status = to };
  emitted = d.emitted ++ ((EventType.status_changed, from_to d.run.status to) ∷ []);
}

-- `certificate?.result === "VERIFIED_SUCCESS"`
unfoldable pub is_success : Option CertificateResult → Bool
is_success (some CertificateResult.verified_success) = true
is_success _ = false

-- The nodes of a draft that is complete, with its needless compensations skipped
unfoldable pub skip_if_complete : (String → Bool) → Definition → Draft → Draft
skip_if_complete certified d draft =
    if holds (
      WorkflowStatus-discrete (derive_status certified draft.run.nodes d.nodes)
        WorkflowStatus.verified_complete)
    then skip_nodes d.nodes draft
    else draft

-- The mutation of an advance
unfoldable pub advance_draft : (String → Bool) → Definition → List NodeResult → Run → Draft
advance_draft certified d results current =
    let written = set_results results (record { run = current; emitted = [] }) in
    let draft = skip_if_complete certified d written in
    set_status (derive_status certified draft.run.nodes d.nodes) draft
