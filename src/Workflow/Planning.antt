-- ===== src/Workflow/Planning.antt =====
-- `plan` of packages/runtime-core/src/workflow-controller.ts.
use atlas_mcp.Prelude.{
  ℕ, String, Bool, true, false, not, none, some, List, [], ◌∷◌, map, values, Result, ok, ◌>>=◌,
  ◌>>◌, guard,
}
use atlas_mcp.Protocol.Effect.{PolicyOutcome}
use atlas_mcp.Protocol.Failure.{Failure, workflow_policy_blocked}
use atlas_mcp.Protocol.Task.{TaskRequest}
use atlas_mcp.Protocol.Workflow.{
  Definition, Node, Run, Event, EventType, Value, NodeStatus, WorkflowStatus,
}
use atlas_mcp.Events.Reduce.{parse_run, apply_event}
use atlas_mcp.Store.Workflows.{WorkflowStore, create_workflow}
use atlas_mcp.Workflow.Transition.{Clock, make_event}
use atlas_mcp.Workflow.Control.{from_to}
use atlas_mcp.Workflow.Graph.{validate_workflow}
use atlas_mcp.Workflow.Nodes.{bare, requests_for}

-- What `plan` runs with: `tasks.preflight`, the redaction of a definition, and the ids that it draws.
pub record PlanSetup : Type 0 where
  pub preflight_outcome : TaskRequest → Result Failure PolicyOutcome
  pub redact_definition : Definition → Definition
  pub run_id : String
  pub trace_id : String
  pub created_at : ℕ
  pub clock : Clock

abbrev pub is_deny : PolicyOutcome → Bool
is_deny PolicyOutcome.deny = true
is_deny _ = false

unfoldable pub draft_run : PlanSetup → Definition → Run
draft_run setup d = record {
  id = setup.run_id;
  definition_id = d.id;
  definition_version = d.version;
  status = WorkflowStatus.draft;
  state_version = 1;
  nodes = map (λ n. (n.id, bare NodeStatus.pending [])) d.nodes;
  trace_id = setup.trace_id;
  error = none;
  created_at = setup.created_at;
  updated_at = setup.created_at;
}

unfoldable pub planned_event : PlanSetup → Run → Event
planned_event setup run =
    make_event setup.clock run 2
      (EventType.status_changed, from_to WorkflowStatus.draft WorkflowStatus.planned)

unfoldable pub plan_events : PlanSetup → Run → List Event
plan_events setup run =
    make_event setup.clock run 1 (EventType.created, ("run", Value.run run) ∷ [])
    ∷ planned_event setup run
    ∷ []

-- The policy on each request of a node, and of all nodes
unfoldable pub preflight_requests :
    PlanSetup → String → List TaskRequest → Result Failure (Unit {0})
preflight_requests setup id [] = ok tt
preflight_requests setup id (r ∷ rs) = do
  outcome ← setup.preflight_outcome r
  guard (not (is_deny outcome)) (workflow_policy_blocked id)
  preflight_requests setup id rs

unfoldable pub preflight_nodes : PlanSetup → List Node → Result Failure (Unit {0})
preflight_nodes setup [] = ok tt
preflight_nodes setup (n ∷ ns) = do
  preflight_requests setup n.id (requests_for n.kind)
  preflight_nodes setup ns

-- `plan`, on a definition that its schema returned
unfoldable pub plan_workflow :
    PlanSetup → WorkflowStore → Definition → Result Failure (Run × WorkflowStore)
plan_workflow setup s d = do
  graph ← validate_workflow d
  preflight_nodes setup (values graph.nodes)
  draft ← parse_run (draft_run setup d)
  planned ← apply_event (some draft) (planned_event setup draft)
  s' ← create_workflow s (setup.redact_definition d) d planned (plan_events setup draft)
  ok (planned, s')
