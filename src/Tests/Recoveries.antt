-- ===== src/Tests/Recoveries.antt =====
-- A concrete recovery of packages/runtime-core/src/workflow-controller.ts.
use atlas_mcp.Prelude.{◌∙◌, inl, inr, sym, ◌≡◌, refl, false, some, [], ◌∷◌, get, OnOk, text_dec}
use atlas_mcp.Protocol.Task.{TaskRecord, TaskStatus}
use atlas_mcp.Protocol.Workflow.{NodeKind, NodeStatus, Run, Definition}
use atlas_mcp.Store.Workflows.{WorkflowStore}
use atlas_mcp.Workflow.Consistency.{IsConsistent}
use atlas_mcp.Workflow.Keys.{KeyOf}
use atlas_mcp.Workflow.Nodes.{bare}
use atlas_mcp.Workflow.Recovery.{recover_run}
use atlas_mcp.Store.Workflows.{latest_snapshot, get_payload}
use atlas_mcp.Workflow.Advance.Once.{load_definition}
use atlas_mcp.Workflow.Reconciled.{NamesNodes}
use atlas_mcp.Workflow.Replayed.{Recovered, replay_run-stored, recover_run-Recovered}
use atlas_mcp.Events.Reduce.{
  rebuild, snapshot_run, apply_events, apply_event, apply_created, created_run, run_valid,
  parse_run, node_state_valid,
}
use atlas_mcp.Tests.Samples.{sample_store, sample-IsConsistent}
use atlas_mcp.Tests.Executions.{task}
use atlas_mcp.Tests.Policies.{reading}
use atlas_mcp.Tests.Workflows.{two_steps, step_run, with_definitions, later}

abbrev node_key : KeyOf
node_key identity request = identity.node_id

abbrev one_step : Definition
one_step = record two_steps {
  nodes = record { id = "o"; depends_on = []; kind = NodeKind.operation reading } ∷ [];
}

abbrev crashed_run : Run
crashed_run = record step_run { nodes = ("o", bare NodeStatus.running []) ∷ [] }

abbrev crashed_store : WorkflowStore
crashed_store = record (sample_store crashed_run) {
  definitions = one_step ∷ [];
  payloads = one_step ∷ [];
}

crashed-IsConsistent : IsConsistent crashed_store
unfolding rebuild snapshot_run apply_events apply_event apply_created created_run get text_dec
    run_valid parse_run node_state_valid
crashed-IsConsistent =
    with_definitions (sample_store crashed_run) (one_step ∷ [])
      (sample-IsConsistent crashed_run refl refl)

-- A task of the node that was caught in the middle of a mutation.
abbrev caught_task : TaskRecord
caught_task = record task {
  idempotency_key = some "o";
  status = TaskStatus.recovery_required;
  error = some "interrupted";
}

one_step-NamesNodes : NamesNodes one_step
one_step-NamesNodes n m (inl p) (inl q) same = sym q ∙ p
one_step-NamesNodes n m (inr p) i same = elim p [ ]
one_step-NamesNodes n m (inl p) (inr q) same = elim q [ ]

recover_run-Recovered_example :
    OnOk
      (λ p.
        (IsConsistent p.1 × (get "w" p.1.runs ≡ some p.0))
        × Recovered node_key (λ id. false) (caught_task ∷ []) crashed_run one_step p.0)
      (recover_run later node_key (λ id. false) (caught_task ∷ []) crashed_store crashed_run)
unfolding get text_dec latest_snapshot load_definition get_payload
recover_run-Recovered_example =
    recover_run-Recovered later node_key (λ id. false) (caught_task ∷ []) crashed_store crashed_run
      crashed_run one_step crashed-IsConsistent refl
      (replay_run-stored crashed_store "w" crashed_run crashed-IsConsistent refl refl) refl
      one_step-NamesNodes
