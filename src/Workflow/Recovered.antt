-- ===== src/Workflow/Recovered.antt =====
-- When `recoveredNodeState` of packages/runtime-core/src/workflow-controller.ts completes a node.
use atlas_mcp.Prelude.{
  ◌≡◌, refl, sym, Bool, true, false, Option, none, some, List, [], ◌∷◌, some_of, every_of, find_of,
  arith,
}
use atlas_mcp.Protocol.Task.{TaskRecord, TaskStatus, TaskStatus-discrete}
use atlas_mcp.Protocol.Workflow.{NodeState, NodeKind}
use atlas_mcp.Workflow.Nodes.{
  in_status, is_failed_task, succeeded_state, settled_state, failed_or_settled, awaiting_or_failed,
  recovery_or_awaiting, recovered_node_state,
}
use atlas_mcp.Workflow.Ready.{is_settled}

all_succeeded : List TaskRecord → Bool
all_succeeded tasks = every_of (in_status TaskStatus.verified_success) tasks

found-unsucceeded :
    (p : TaskRecord → Bool) (tasks : List TaskRecord) (t : TaskRecord)
    → ((x : TaskRecord) → p x ≡ true → in_status TaskStatus.verified_success x ≡ false)
    → find_of p tasks ≡ some t
    → all_succeeded tasks ≡ false
unfolding all_succeeded
found-unsucceeded p [] t apart found = cc
found-unsucceeded p (x ∷ xs) t apart found = ground (arith, apart x, found-unsucceeded p xs t apart)

some-unsucceeded :
    (tasks : List TaskRecord)
    → some_of (in_status TaskStatus.planned) tasks ≡ true
    → all_succeeded tasks ≡ false
unfolding all_succeeded TaskStatus-discrete
some-unsucceeded [] some_planned = cc
some-unsucceeded (x ∷ xs) some_planned = ground (arith, some-unsucceeded xs)

succeeded_state-settled :
    (kind : NodeKind) (tasks : List TaskRecord)
    → is_settled (some (succeeded_state kind tasks)) ≡ true
unfolding succeeded_state is_settled
succeeded_state-settled (NodeKind.compensation target request) tasks = refl
succeeded_state-settled (NodeKind.bounded_loop body limit until) tasks = refl
succeeded_state-settled _ tasks = refl

settled_state-settled :
    (kind : NodeKind) (tasks : List TaskRecord)
    → is_settled (some (settled_state kind tasks)) ≡ all_succeeded tasks
unfolding settled_state is_settled all_succeeded
settled_state-settled kind tasks =
    let planned = some-unsucceeded tasks in
    let done = succeeded_state-settled kind tasks in ground arith

failed_or_settled-settled :
    (kind : NodeKind) (tasks : List TaskRecord) (failed : Option TaskRecord)
    → find_of is_failed_task tasks ≡ failed
    → is_settled (some (failed_or_settled kind tasks failed)) ≡ all_succeeded tasks
unfolding failed_or_settled is_settled is_failed_task TaskStatus-discrete
failed_or_settled-settled kind tasks none found = settled_state-settled kind tasks
failed_or_settled-settled kind tasks (some t) found =
    sym (found-unsucceeded is_failed_task tasks t (λ x h. ground arith) found)

awaiting_or_failed-settled :
    (kind : NodeKind) (tasks : List TaskRecord) (awaiting : Option TaskRecord)
    → find_of (in_status TaskStatus.awaiting_approval) tasks ≡ awaiting
    → is_settled (some (awaiting_or_failed kind tasks awaiting)) ≡ all_succeeded tasks
unfolding awaiting_or_failed is_settled TaskStatus-discrete
awaiting_or_failed-settled kind tasks none found =
    failed_or_settled-settled kind tasks (find_of is_failed_task tasks) refl
awaiting_or_failed-settled kind tasks (some t) found =
    sym (
      found-unsucceeded (in_status TaskStatus.awaiting_approval) tasks t (λ x h. ground arith)
        found)

recovery_or_awaiting-settled :
    (kind : NodeKind) (tasks : List TaskRecord) (recovery : Option TaskRecord)
    → find_of (in_status TaskStatus.recovery_required) tasks ≡ recovery
    → is_settled (some (recovery_or_awaiting kind tasks recovery)) ≡ all_succeeded tasks
unfolding recovery_or_awaiting is_settled TaskStatus-discrete
recovery_or_awaiting-settled kind tasks none found =
    awaiting_or_failed-settled kind tasks (find_of (in_status TaskStatus.awaiting_approval) tasks)
      refl
recovery_or_awaiting-settled kind tasks (some t) found =
    sym (
      found-unsucceeded (in_status TaskStatus.recovery_required) tasks t (λ x h. ground arith)
        found)

-- Recovery settles a node for which it found a task exactly when every task that it found has ended
-- in verified success, however many more tasks the node has yet to run.
pub recovered_node_state_settled :
    (kind : NodeKind) (t : TaskRecord) (ts : List TaskRecord) (previous : NodeState)
    → is_settled (some (recovered_node_state kind (t ∷ ts) previous))
      ≡ every_of (in_status TaskStatus.verified_success) (t ∷ ts)
unfolding recovered_node_state all_succeeded
recovered_node_state_settled kind t ts previous =
    recovery_or_awaiting-settled kind (t ∷ ts)
      (find_of (in_status TaskStatus.recovery_required) (t ∷ ts)) refl
