-- ===== src/Workflow/Statuses.antt =====
-- `deriveStatus` of packages/runtime-core/src/workflow-controller.ts: the status of a run from those
-- of its nodes and from the certificates of their tasks.
use atlas_mcp.Prelude.{
  String, ◌≡◌, refl, ap, Bool, true, false, not, ◌&&◌, Option, none, some, List, [], ◌∷◌, Map, get,
  holds, if◌then◌else◌, some_of, every_of, filter_of, arith,
}
use atlas_mcp.Protocol.Workflow.{
  NodeState, NodeStatus, NodeStatus-discrete, Node, WorkflowStatus, WorkflowStatus-discrete,
}
use atlas_mcp.Workflow.Ready.{compensates, is_settled}
use atlas_mcp.Workflow.Nodes.{bare}

-- `definition.nodes.filter(node => node.type !== "compensation")`
unfoldable pub required_nodes : List Node → List Node
required_nodes nodes = filter_of (λ n. not (compensates n.kind)) nodes

-- `state?.status === status`
unfoldable pub state_in : NodeStatus → Option NodeState → Bool
state_in status none = false
state_in status (some s) = holds (NodeStatus-discrete s.status status)

unfoldable pub node_in : NodeStatus → Map NodeState → Node → Bool
node_in status states n = state_in status (get n.id states)

unfoldable pub all_certified : (String → Bool) → Option NodeState → Bool
all_certified certified none = false
all_certified certified (some s) = every_of certified s.task_ids

-- The node is settled, and each of its tasks has a certificate of verified success.
unfoldable pub node_done : (String → Bool) → Map NodeState → Node → Bool
node_done certified states n =
    is_settled (get n.id states) && all_certified certified (get n.id states)

-- `deriveStatus`; `certified` tells whether a task's certificate says `VERIFIED_SUCCESS`
unfoldable pub derive_status : (String → Bool) → Map NodeState → List Node → WorkflowStatus
derive_status certified states nodes =
    let required = required_nodes nodes in
    if some_of (node_in NodeStatus.failed states) required
    then WorkflowStatus.failed
    else if some_of (node_in NodeStatus.recovery_required states) required
    then WorkflowStatus.recovery_required
    else if some_of (node_in NodeStatus.awaiting_approval states) required
    then WorkflowStatus.awaiting_approval
    else if some_of (node_in NodeStatus.awaiting_input states) required
    then WorkflowStatus.awaiting_input
    else if every_of (node_done certified states) required
    then WorkflowStatus.verified_complete
    else WorkflowStatus.running

some_of-every_of :
    (p q : Node → Bool) (ns : List Node)
    → ((n : Node) → q n ≡ true → p n ≡ false)
    → every_of q ns ≡ true
    → some_of p ns ≡ false
some_of-every_of p q [] apart every = refl
some_of-every_of p q (n ∷ ns) apart every = ground (arith, apart n, some_of-every_of p q ns apart)

is_open : NodeStatus → Bool
is_open status = not (is_settled (some (bare status [])))

is_settled-bare : (s : NodeState) → is_settled (some s) ≡ is_settled (some (bare s.status []))
unfolding is_settled
is_settled-bare s = refl

state_in-settled :
    (status : NodeStatus) (state : Option NodeState)
    → is_open status ≡ true
    → is_settled state ≡ true
    → state_in status state ≡ false
unfolding state_in is_open
state_in-settled status none free settled = refl
state_in-settled status (some s) free settled =
    elim (NodeStatus-discrete s.status status) as (λ d. holds d ≡ false) [
      | yes same ↦
          let here = ap (λ x. is_settled (some (bare x []))) same in
          let there = is_settled-bare s in ground arith
      | no apart ↦ refl
    ]

node_done-node_in :
    (certified : String → Bool) (states : Map NodeState) (status : NodeStatus) (n : Node)
    → is_open status ≡ true
    → node_done certified states n ≡ true
    → node_in status states n ≡ false
unfolding node_done node_in
node_done-node_in certified states status n free done =
    state_in-settled status (get n.id states) free (ground arith)

none_open :
    (certified : String → Bool) (states : Map NodeState) (status : NodeStatus) (ns : List Node)
    → is_open status ≡ true
    → every_of (node_done certified states) ns ≡ true
    → some_of (node_in status states) ns ≡ false
none_open certified states status ns free every =
    some_of-every_of (node_in status states) (node_done certified states) ns
      (λ n. node_done-node_in certified states status n free) every

-- A run is derived to be complete exactly when each of its nodes, compensations left out, is settled
-- and each task of these nodes has a certificate of verified success.
pub derive_status_complete :
    (certified : String → Bool) (states : Map NodeState) (nodes : List Node)
    → holds (
        WorkflowStatus-discrete
          (derive_status certified states nodes)
          WorkflowStatus.verified_complete)
      ≡ every_of (node_done certified states) (required_nodes nodes)
unfolding derive_status is_open is_settled WorkflowStatus-discrete
derive_status_complete certified states nodes =
    let required = required_nodes nodes in
    let failed = none_open certified states NodeStatus.failed required refl in
    let recovery = none_open certified states NodeStatus.recovery_required required refl in
    let approval = none_open certified states NodeStatus.awaiting_approval required refl in
    let input = none_open certified states NodeStatus.awaiting_input required refl in ground arith
