-- ===== src/Tests/Histories.antt =====
-- Concrete histories and transitions, for packages/runtime-core/src/workflow-events.ts and
-- packages/runtime-core/src/workflow-controller.ts.
use atlas_mcp.Prelude.{
  ◌+◌, ◌≡◌, ◌≢◌, refl, none, some, [], ◌∷◌, get, ok, err, ◌>>=◌, map_ok, OnOk, arith, text_dec,
}
use atlas_mcp.Protocol.Failure.{projection_event_mismatch}
use atlas_mcp.Protocol.Workflow.{
  Node, NodeKind, NodeStatus, NodeState, WorkflowStatus, Run, Event, EventType,
}
use atlas_mcp.Events.Reduce.{
  rebuild, snapshot_run, apply_events, apply_event, apply_created, created_run, run_valid,
  parse_run, utf16_length,
}
use atlas_mcp.Events.Replay.{IsHistory, rebuild-IsHistory, rebuild-snapshot, snapshot_of}
use atlas_mcp.Store.Workflows.{
  transition_workflow, assert_events, sequences_follow, insert_events, insert_event,
}
use atlas_mcp.Workflow.Transition.{Draft, Clock, transition, make_event}
use atlas_mcp.Workflow.Control.{Halt, halt, resume, from_to, resumed_status}
use atlas_mcp.Workflow.Consistency.{IsConsistent, Sound, transition-Sound}
use atlas_mcp.Workflow.Conflicts.{transition_workflow-excludes}
use atlas_mcp.Workflow.Halting.{moved, moved_store, halt_ok, halt-error, resume_ok, resume-halt}
use atlas_mcp.Tests.Samples.{sample_run, created_event, sample_store, sample-IsConsistent}

abbrev running : Run
running = sample_run WorkflowStatus.running none

abbrev paused : Run
paused = sample_run WorkflowStatus.paused none

abbrev stuck : Run
stuck = sample_run WorkflowStatus.recovery_required (some "interrupted")

abbrev clock : Clock
clock n = 10 + n

running-IsConsistent : IsConsistent (sample_store running)
unfolding rebuild snapshot_run apply_events apply_event apply_created created_run get text_dec
    run_valid parse_run
running-IsConsistent = sample-IsConsistent running refl refl

paused-IsConsistent : IsConsistent (sample_store paused)
unfolding rebuild snapshot_run apply_events apply_event apply_created created_run get text_dec
    run_valid parse_run
paused-IsConsistent = sample-IsConsistent paused refl refl

stuck-IsConsistent : IsConsistent (sample_store stuck)
unfolding rebuild snapshot_run apply_events apply_event apply_created created_run get text_dec
    run_valid utf16_length parse_run
stuck-IsConsistent = sample-IsConsistent stuck refl refl

rebuild-IsHistory_example :
    OnOk (IsHistory (created_event running ∷ [])) (rebuild none (created_event running ∷ []))
rebuild-IsHistory_example = rebuild-IsHistory (created_event running ∷ [])

abbrev pause_event : Event
pause_event =
    make_event clock running 2
      (EventType.workflow_paused, from_to WorkflowStatus.running WorkflowStatus.paused)

rebuild-snapshot_example :
    rebuild (some (snapshot_of running)) (pause_event ∷ [])
    ≡ rebuild none (created_event running ∷ pause_event ∷ [])
unfolding rebuild snapshot_run apply_events apply_event apply_created created_run get text_dec
    run_valid parse_run
rebuild-snapshot_example =
    rebuild-snapshot (created_event running ∷ []) (pause_event ∷ []) running refl

abbrev pause_draft : Draft
pause_draft = record {
  run = record running { status = WorkflowStatus.paused };
  emitted = (EventType.workflow_paused, from_to WorkflowStatus.running WorkflowStatus.paused) ∷ [];
}

transition-Sound_example :
    OnOk
      (Sound clock (sample_store running) running pause_draft)
      (transition clock (sample_store running) running pause_draft)
unfolding get text_dec
transition-Sound_example =
    transition-Sound clock (sample_store running) running pause_draft running-IsConsistent refl

halt_ok_example :
    halt clock (sample_store running) "w" Halt.pausing
    ≡ ok (
      moved clock running WorkflowStatus.paused,
      moved_store clock
          (sample_store running)
          running
          EventType.workflow_paused
          WorkflowStatus.paused,
    )
unfolding get text_dec
halt_ok_example =
    halt_ok clock (sample_store running) running Halt.pausing running-IsConsistent refl
      (ground arith) refl refl

halt-error_example :
    halt clock (sample_store stuck) "w" Halt.pausing ≡ err projection_event_mismatch
unfolding get text_dec
halt-error_example =
    halt-error clock (sample_store stuck) stuck Halt.pausing "interrupted" stuck-IsConsistent refl
      (ground arith) refl refl

resume_ok_example :
    resume clock (sample_store paused) "w"
    ≡ ok (
      moved clock paused WorkflowStatus.running,
      moved_store clock (sample_store paused) paused EventType.resumed WorkflowStatus.running,
    )
unfolding get text_dec resumed_status
resume_ok_example = resume_ok clock (sample_store paused) paused paused-IsConsistent refl refl

resume-halt_example :
    map_ok
      (λ x. x.0)
      (halt clock (sample_store running) "w" Halt.suspending >>= λ (r', s'). resume clock s' r'.id)
    ≡ ok (record running { state_version = 3; updated_at = 13 })
unfolding get text_dec resumed_status
resume-halt_example =
    resume-halt clock (sample_store running) running Halt.suspending running-IsConsistent refl refl
      refl

paused_once :
    transition_workflow
      (sample_store running)
      "w"
      1
      (moved clock running WorkflowStatus.paused)
      (pause_event ∷ [])
    ≡ ok (
        moved_store clock
          (sample_store running)
          running
          EventType.workflow_paused
          WorkflowStatus.paused)
unfolding transition_workflow parse_run run_valid assert_events text_dec make_event sequences_follow
    get insert_events insert_event
paused_once = refl

transition_workflow-excludes_example :
    transition_workflow
      (moved_store clock
        (sample_store running)
        running
        EventType.workflow_paused
        WorkflowStatus.paused)
      "w"
      1
      (moved clock running WorkflowStatus.suspended)
      (pause_event ∷ [])
    ≢ ok (sample_store running)
transition_workflow-excludes_example =
    transition_workflow-excludes (sample_store running)
      (moved_store clock (sample_store running) running EventType.workflow_paused
        WorkflowStatus.paused)
      (sample_store running) "w" 1 (moved clock running WorkflowStatus.paused)
      (moved clock running WorkflowStatus.suspended) (pause_event ∷ []) (pause_event ∷ [])
      paused_once

abbrev first_node : Node
first_node = record { id = "a"; depends_on = []; kind = NodeKind.checkpoint }

abbrev second_node : Node
second_node = record { id = "b"; depends_on = "a" ∷ []; kind = NodeKind.checkpoint }

abbrev waiting : NodeStatus → NodeState
waiting st = record {
  status = st;
  task_ids = [];
  approval = none;
  iterations = none;
  prompt = none;
  input = none;
  error = none;
}
