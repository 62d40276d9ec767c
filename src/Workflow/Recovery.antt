-- ===== src/Workflow/Recovery.antt =====
-- `replay` and `recoverInterrupted` of packages/runtime-core/src/workflow-controller.ts.
use atlas_mcp.Prelude.{
  ℕ, String, Bool, Option, none, some, List, [], ◌∷◌, ◌++◌, holds, nat_eq, if◌then◌else◌, Result,
  ok, err, ◌>>=◌, ◌>>◌, guard, handle,
}
use atlas_mcp.Protocol.Failure.{Failure, workflow_event_history_invalid}
use atlas_mcp.Protocol.Task.{TaskRecord}
use atlas_mcp.Protocol.Workflow.{
  Definition, Node, Run, NodeState, NodeState-discrete, EventType, WorkflowStatus,
  WorkflowStatus-discrete, Snapshot,
}
use atlas_mcp.Protocol.Workflow.{Value}
use atlas_mcp.Events.Reduce.{rebuild}
use atlas_mcp.Store.Workflows.{WorkflowStore, list_events, latest_snapshot}
use atlas_mcp.Workflow.Transition.{Clock, Draft, transition}
use atlas_mcp.Workflow.Control.{from_to}
use atlas_mcp.Workflow.Keys.{KeyOf, expected_task_keys, preferred_tasks}
use atlas_mcp.Workflow.Nodes.{recovered_node_state}
use atlas_mcp.Workflow.Statuses.{derive_status}
use atlas_mcp.Workflow.Advance.Once.{load_definition, set_node, state_of, skip_if_complete}

abbrev snapshot_sequence : Option Snapshot → ℕ
snapshot_sequence none = 0
snapshot_sequence (some x) = x.sequence

-- `replay`: from the latest snapshot, or else from the whole history
unfoldable pub replay_run : WorkflowStore → String → Result Failure Run
replay_run s id =
    let snapshot = latest_snapshot id s.snapshots in
    handle (rebuild snapshot (list_events s id (snapshot_sequence snapshot)))
      (λ _. handle (rebuild none (list_events s id 0)) (λ _. err workflow_event_history_invalid) ok)
      ok

-- The state that the tasks of a node give it
unfoldable pub recovered_state : KeyOf → List TaskRecord → Run → Definition → Node → NodeState
recovered_state key tasks replayed d n =
    recovered_node_state n.kind
      (preferred_tasks tasks (expected_task_keys key replayed.id n.id n.kind d))
      (state_of replayed n.id)

-- The loop over the nodes of a definition
unfoldable pub recover_nodes :
    KeyOf → List TaskRecord → Run → Definition → List Node → Draft → Draft
recover_nodes key tasks replayed d [] draft = draft
recover_nodes key tasks replayed d (n ∷ ns) draft =
    let state = recovered_state key tasks replayed d n in
    recover_nodes key tasks replayed d ns (
      if holds (NodeState-discrete (state_of draft.run n.id) state)
      then draft
      else set_node n.id state draft)

abbrev unreconciled : Option String
unreconciled = some "workflow_contains_unreconciled_mutation"

abbrev needs_recovery : WorkflowStatus → Bool
needs_recovery to = holds (WorkflowStatus-discrete to WorkflowStatus.recovery_required)

unfoldable pub close_recovery : WorkflowStatus → Draft → Draft
close_recovery to draft =
    if needs_recovery to
    then record {
      run = record draft.run { status = to; error = unreconciled };
      emitted =
          draft.emitted
          ++ ((
            EventType.recovery_needed,
            from_to draft.run.status to
                ++ (("error", Value.str "workflow_contains_unreconciled_mutation") ∷ []),
          )
              ∷ []);
    }
    else record {
      run = record draft.run { status = to; error = none };
      emitted = draft.emitted ++ ((EventType.recovered, from_to draft.run.status to) ∷ []);
    }

-- The mutation of the recovery of one run
unfoldable pub recovery_draft :
    KeyOf → (String → Bool) → List TaskRecord → Run → Definition → Run → Draft
recovery_draft key certified tasks replayed d stored =
    let nodes =
      recover_nodes key tasks replayed d d.nodes (record { run = stored; emitted = [] }) in
    let draft = skip_if_complete certified d nodes in
    close_recovery (derive_status certified draft.run.nodes d.nodes) draft

-- The body of the loop of `recoverInterrupted` over the stored runs
unfoldable pub recover_run :
    Clock
    → KeyOf
    → (String → Bool)
    → List TaskRecord
    → WorkflowStore
    → Run
    → Result Failure (Run × WorkflowStore)
recover_run clock key certified tasks s stored = do
  replayed ← replay_run s stored.id
  guard (nat_eq replayed.state_version stored.state_version) workflow_event_history_invalid
  d ← load_definition s stored
  transition clock s stored (recovery_draft key certified tasks replayed d stored)
