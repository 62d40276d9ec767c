-- ===== src/Tests/Workflows.antt =====
-- Concrete graphs, plans and advances of packages/runtime-core/src/workflow-controller.ts.
use atlas_mcp.Prelude.{
  ◌+◌, String, ◌==◌, values, length, ◌≡◌, ◌≢◌, refl, true, false, none, some, List, [], ◌∷◌, get,
  ok, err, OnOk, arith, text_dec, every_of, holds,
}
use atlas_mcp.Protocol.Effect.{PolicyOutcome}
use atlas_mcp.Protocol.Failure.{thrown, out_of_fuel, workflow_halted, workflow_lease_held}
use atlas_mcp.Protocol.Task.{TaskRecord, TaskStatus, EvidencePredicate}
use atlas_mcp.Protocol.Workflow.{
  Node, NodeKind, NodeStatus, WorkflowStatus, WorkflowStatus-discrete, Run, Definition,
}
use atlas_mcp.Store.Leases.{acquire, owned, held_by_other}
use atlas_mcp.Store.Leases.Exclusion.{try_acquire, calls}
use atlas_mcp.Store.Workflows.{WorkflowStore}
use atlas_mcp.Workflow.Consistency.{IsConsistent}
use atlas_mcp.Workflow.Control.{pausing, halt}
use atlas_mcp.Workflow.Graph.{validate_workflow, processed}
use atlas_mcp.Workflow.Graph.Order.{Ordered}
use atlas_mcp.Workflow.Graph.Validated.{validate_workflow-Ordered}
use atlas_mcp.Workflow.Graph.Decided.{validate_workflow_ends}
use atlas_mcp.Workflow.Nodes.{bare, in_status, recovered_node_state}
use atlas_mcp.Workflow.Ready.{is_settled}
use atlas_mcp.Workflow.Recovered.{recovered_node_state_settled}
use atlas_mcp.Workflow.Statuses.{derive_status, derive_status_complete, node_done, required_nodes}
use atlas_mcp.Workflow.Transition.{Clock}
use atlas_mcp.Workflow.Planning.{PlanSetup, plan_workflow}
use atlas_mcp.Workflow.Creation.{plan_workflow-Planned}
use atlas_mcp.Workflow.Advance.{TaskPort}
use atlas_mcp.Workflow.Advance.Leased.{advance_once, leased_advance}
use atlas_mcp.Workflow.Advance.Fresh.{Follows-stored}
use atlas_mcp.Workflow.Advance.Sound.{advance_once-IsConsistent}
use atlas_mcp.Workflow.Advance.Yields.{IsStale, Yields, advance_once-Yields, advance_once-halt}
use atlas_mcp.Workflow.Advance.Exclusive.{leased_advance-excludes, leased_advance-releases}
use atlas_mcp.Events.Reduce.{
  rebuild, snapshot_run, apply_events, apply_event, apply_created, created_run, run_valid,
  parse_run, node_state_valid,
}
use atlas_mcp.Tests.Samples.{sample_run, sample_store, sample-IsConsistent}
use atlas_mcp.Tests.Executions.{task}
use atlas_mcp.Tests.Policies.{reading}

abbrev checkpoint_node : Node
checkpoint_node = record { id = "c"; depends_on = []; kind = NodeKind.checkpoint }

abbrev question_node : Node
question_node = record {
  id = "q";
  depends_on = "c" ∷ [];
  kind = NodeKind.human_input "Ship it?" [] 100;
}

abbrev pub two_steps : Definition
two_steps = record {
  id = "d";
  version = 1;
  name = "two steps";
  nodes = checkpoint_node ∷ question_node ∷ [];
}

abbrev circle : Definition
circle = record two_steps {
  nodes = record checkpoint_node { depends_on = "q" ∷ [] } ∷ question_node ∷ [];
}

validate_workflow_ends_example : validate_workflow circle ≢ err out_of_fuel
validate_workflow_ends_example = validate_workflow_ends circle

validate_workflow-Ordered_example :
    OnOk
      (λ g. Ordered (values g.nodes) [] g.layers × (processed g.layers ≡ length g.nodes))
      (validate_workflow two_steps)
validate_workflow-Ordered_example = validate_workflow-Ordered two_steps

abbrev pub step_run : Run
step_run = record (sample_run WorkflowStatus.running none) {
  nodes = ("c", bare NodeStatus.pending []) ∷ ("q", bare NodeStatus.pending []) ∷ [];
}

abbrev step_store : WorkflowStore
step_store = record (sample_store step_run) {
  definitions = two_steps ∷ [];
  payloads = two_steps ∷ [];
}

pub with_definitions :
    (s : WorkflowStore) (ds : List Definition)
    → IsConsistent s
    → IsConsistent (record s { definitions = ds; payloads = ds })
with_definitions s ds c = record { named = c.named; rebuilt = c.rebuilt; orphans = c.orphans }

step-IsConsistent : IsConsistent step_store
unfolding rebuild snapshot_run apply_events apply_event apply_created created_run get text_dec
    run_valid parse_run node_state_valid
step-IsConsistent =
    with_definitions (sample_store step_run) (two_steps ∷ [])
      (sample-IsConsistent step_run refl refl)

abbrev port : TaskPort (Unit {0})
port = record {
  plan_task = λ request key t. (err (thrown "offline"), t);
  task_status = λ id t. (err (thrown "offline"), t);
  execute_task = λ id approval t. (err (thrown "offline"), t);
  verify_persisted = λ id predicate t. (ok false, t);
  verify_standalone = λ predicates t. (ok false, t);
  certificate = λ id t. none;
  preflight_task = λ request. ok PolicyOutcome.allow;
  key_of = λ identity request. identity.node_id;
  redact_text = λ s. s;
  slice_text = λ n s. s;
}

abbrev pub later : Clock
later n = 10 + n

advance_once-IsConsistent_example :
    IsConsistent (advance_once port later (λ s. s) [] [] "w" step_store tt).0.1
unfolding get text_dec
advance_once-IsConsistent_example =
    advance_once-IsConsistent port later (λ s. s) [] [] "w" step_store tt step-IsConsistent
      (λ current found. Follows-stored step_store step_run current step-IsConsistent found)

abbrev overtaken : WorkflowStore → WorkflowStore
overtaken s = record s { runs = ("w", record step_run { state_version = 2 }) ∷ [] }

step-IsStale : IsStale (overtaken step_store) step_run
unfolding get text_dec
step-IsStale r found = ground arith

advance_once-Yields_example :
    Yields port later overtaken [] [] step_store
      (advance_once port later overtaken [] [] "w" step_store tt)
unfolding get text_dec
advance_once-Yields_example =
    advance_once-Yields port later overtaken [] [] "w" step_store tt step_run refl step-IsStale

advance_once-halt_example :
    (p : Run × WorkflowStore) × (halt later step_store "w" pausing ≡ ok p)
    × (advance_once port later (λ s. s) [] [] "w" p.1 tt
        ≡ ((err (workflow_halted WorkflowStatus.paused), p.1), tt))
unfolding get text_dec
advance_once-halt_example =
    advance_once-halt port later (λ s. s) [] [] step_store step_run pausing tt step-IsConsistent
      refl (λ e. cc) refl refl

differ : (a b : String) → (a == b) ≡ false → a ≢ b
differ a b h p = ground arith

leased_advance-excludes_example :
    leased_advance port later
      (λ s. s)
      []
      []
      "w"
      "b"
      50
      60
      (λ l. l)
      step_store
      tt
      (calls (acquire [] "w" "a" 0 100).0 (try_acquire "w" "c" 20 90 ∷ []))
    ≡ (
      ((err workflow_lease_held, step_store), tt),
      calls (acquire [] "w" "a" 0 100).0 (try_acquire "w" "c" 20 90 ∷ []),
    )
unfolding get text_dec acquire held_by_other
leased_advance-excludes_example =
    leased_advance-excludes port later (λ s. s) [] [] (λ l. l) [] "w" "a" "b" 0 100 50 60
      (try_acquire "w" "c" 20 90 ∷ []) step_store tt step_run refl refl
      ((differ "c" "a" refl, omega arith), tt) (differ "b" "a" refl) (omega arith)

leased_advance-releases_example :
    owned
      (get "w"
        (leased_advance port later (λ s. s) [] [] "w" "owner" 0 60 (λ l. l) step_store tt []).1)
      "owner"
    ≡ false
unfolding get text_dec
leased_advance-releases_example =
    leased_advance-releases port later (λ s. s) [] [] (λ l. l) "w" "owner" 0 60 step_store tt []
      step_run refl

abbrev plan_setup : PlanSetup
plan_setup = record {
  preflight_outcome = λ request. ok PolicyOutcome.allow;
  redact_definition = λ d. d;
  run_id = "n";
  trace_id = "t";
  created_at = 3;
  clock = later;
}

abbrev new_steps : Definition
new_steps = record two_steps { id = "e" }

plan_workflow-Planned_example :
    OnOk
      (λ p. IsConsistent p.1 × (get p.0.id p.1.runs ≡ some p.0))
      (plan_workflow plan_setup step_store new_steps)
unfolding get text_dec
plan_workflow-Planned_example =
    plan_workflow-Planned plan_setup step_store new_steps step-IsConsistent refl

derive_status_complete_example :
    holds (
      WorkflowStatus-discrete
        (derive_status (λ id. true) step_run.nodes two_steps.nodes)
        WorkflowStatus.verified_complete)
    ≡ every_of (node_done (λ id. true) step_run.nodes) (required_nodes two_steps.nodes)
derive_status_complete_example = derive_status_complete (λ id. true) step_run.nodes two_steps.nodes

abbrev done_task : TaskRecord
done_task = record task { status = TaskStatus.verified_success }

-- A condition with two requests, of which one has run.
abbrev two_requests : NodeKind
two_requests = NodeKind.condition "s" (EvidencePredicate.exit_code "0") (reading ∷ reading ∷ []) []

recovered_node_state_settled_example :
    is_settled
      (some (recovered_node_state two_requests (done_task ∷ []) (bare NodeStatus.pending [])))
    ≡ every_of (in_status TaskStatus.verified_success) (done_task ∷ [])
recovered_node_state_settled_example =
    recovered_node_state_settled two_requests done_task [] (bare NodeStatus.pending [])
