-- ===== src/Workflow/Advance/Leased.antt =====
-- `advanceOnce` and `leasedAdvance` of packages/runtime-core/src/workflow-controller.ts as a whole.
use atlas_mcp.Prelude.{
  ℕ, ◌+◌, String, Bool, true, false, List, [], ◌∷◌, ◌++◌, if◌then◌else◌, some_of, handle, Result,
  ok, err, ◌>>=◌,
}
use atlas_mcp.Protocol.Effect.{ApprovalResponse}
use atlas_mcp.Protocol.Failure.{Failure, workflow_halted, workflow_lease_held}
use atlas_mcp.Protocol.Task.{TaskRecord}
use atlas_mcp.Protocol.Workflow.{Definition, Run, Event, EventType, Value, Snapshot}
use atlas_mcp.Store.Leases.{Leases, acquire, release}
use atlas_mcp.Store.Workflows.{WorkflowStore, list_events, save_snapshot}
use atlas_mcp.Workflow.Transition.{Clock, Draft, status, transition}
use atlas_mcp.Workflow.Control.{is_over, is_halted}
use atlas_mcp.Workflow.Graph.{Graph, validate_workflow}
use atlas_mcp.Workflow.Advance.{TaskPort}
use atlas_mcp.Workflow.Advance.Node.{WorkflowInput}
use atlas_mcp.Workflow.Advance.Once.{
  NodeResult, load_definition, chosen_nodes, node_results, advance_draft, is_success,
}

-- `WorkflowAdvanceResult`
pub record AdvanceResult : Type 0 where
  pub run : Run
  pub tasks : List TaskRecord
  pub events : List Event

abbrev pub unchanged : Run → AdvanceResult
unchanged run = record { run = run; tasks = []; events = [] }

unfoldable pub checkpoint_draft : Run → Draft
checkpoint_draft run = record {
  run = run;
  emitted = (EventType.checkpoint_saved, ("sequence", Value.num (run.state_version + 1)) ∷ []) ∷ [];
}

unfoldable pub checkpoint_snapshot : Run → Snapshot
checkpoint_snapshot run = record {
  workflow_id = run.id;
  sequence = run.state_version;
  run = run;
  created_at = run.updated_at;
}

-- A result, and the store that a call left, also when it threw
abbrev pub Stored : Type 0 → Type 0
Stored A = Result Failure A × WorkflowStore

unfoldable pub store_snapshot : Run × WorkflowStore → Stored Run
store_snapshot (run, s) =
    handle (save_snapshot s (checkpoint_snapshot run)) (λ e. (err e, s)) (λ s'. (ok run, s'))

-- The transition and the snapshot of a checkpoint
unfoldable pub save_checkpoint : Clock → Run × WorkflowStore → Stored Run
save_checkpoint clock (run, s) =
    handle (transition clock s run (checkpoint_draft run)) (λ e. (err e, s)) store_snapshot

abbrev pub some_checkpoint : List NodeResult → Bool
some_checkpoint results = some_of (λ r. r.1.checkpoint) results

unfoldable pub checkpointed : Clock → Bool → Run × WorkflowStore → Stored Run
checkpointed clock true (run, s) = save_checkpoint clock (run, s)
checkpointed clock false (run, s) = (ok run, s)

-- What an advance stores of its results
unfoldable pub commit_results : Clock → WorkflowStore → Run → Draft → Bool → Stored Run
commit_results clock s current draft saves =
    handle (transition clock s current draft) (λ e. (err e, s)) (checkpointed clock saves)

unfoldable pub all_tasks : List NodeResult → List TaskRecord
all_tasks [] = []
all_tasks (r ∷ rs) = r.1.tasks ++ all_tasks rs

-- The result of an advance that stored its results
unfoldable pub answer_advance : String → Run → List NodeResult → Stored Run → Stored AdvanceResult
answer_advance id current results (err e, s) = (err e, s)
answer_advance id current results (ok run, s) = (
  ok (record {
    run = run;
    tasks = all_tasks results;
    events = list_events s id current.state_version;
  }),
  s,
)

-- The nodes to run, or none if there is nothing to do
unfoldable pub prepare_advance :
    WorkflowStore → Run → Result Failure (Definition × Graph × List String)
prepare_advance s current = do
  d ← load_definition s current
  graph ← validate_workflow d
  ok (d, graph, chosen_nodes current d graph)

-- `others` is what other calls do to the tables while the tasks run.
module _ {T : Type 0} (port : TaskPort T) (clock : Clock) (others : WorkflowStore → WorkflowStore)
    (approvals : List ApprovalResponse) (inputs : List WorkflowInput) (id : String) where
  unfoldable pub certified_in : T → String → Bool
  certified_in t task = is_success (port.certificate task t)

  -- The end of an advance whose nodes have run
  unfoldable pub after_results :
      Run
      → Definition
      → WorkflowStore
      → Result Failure (List NodeResult) × T
      → Stored AdvanceResult × T
  after_results current d s (err e, t) = ((err e, others s), t)
  after_results current d s (ok results, t) = (
    answer_advance id current results (
        commit_results clock (others s) current (advance_draft (certified_in t) d results current)
          (some_checkpoint results)),
    t,
  )

  unfoldable pub run_nodes :
      WorkflowStore → Run → T → Definition × Graph × List String → Stored AdvanceResult × T
  run_nodes s current t (d, graph, []) = ((ok (unchanged current), s), t)
  run_nodes s current t (d, graph, n ∷ ns) =
      after_results current d s (node_results port current approvals d graph inputs (n ∷ ns) t)

  unfoldable pub advance_run : WorkflowStore → T → Run → Stored AdvanceResult × T
  advance_run s t current =
      if is_over current.status
      then ((ok (unchanged current), s), t)
      else if is_halted current.status
      then ((err (workflow_halted current.status), s), t)
      else handle (prepare_advance s current) (λ e. ((err e, s), t)) (run_nodes s current t)

  -- `advanceOnce`
  unfoldable pub advance_once : WorkflowStore → T → Stored AdvanceResult × T
  advance_once s t = handle (status s id) (λ e. ((err e, s), t)) (advance_run s t)

  -- `leasedAdvance`; `lease_others` is what its own renewals and other owners do to the leases
  module _ (owner : String) (now duration : ℕ) (lease_others : Leases → Leases) where
    unfoldable pub with_lease :
        WorkflowStore → T → Leases → Leases × Bool → (Stored AdvanceResult × T) × Leases
    with_lease s t leases (held, false) = (((err workflow_lease_held, s), t), held)
    with_lease s t leases (held, true) = (advance_once s t, release (lease_others held) id owner)

    unfoldable pub leased_advance : WorkflowStore → T → Leases → (Stored AdvanceResult × T) × Leases
    leased_advance s t leases =
        handle (status s id) (λ e. (((err e, s), t), leases))
          (λ _. with_lease s t leases (acquire leases id owner now (now + duration)))
