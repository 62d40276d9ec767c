-- ===== src/Workflow/Ready.antt =====
-- `readyNodeIds` of packages/runtime-core/src/workflow-graph.ts: the nodes that may run now.
use atlas_mcp.Prelude.{
  String, ◌≡◌, refl, ◌∙◌, ap, Bool, true, false, not, ◌&&◌, ◌||◌, Option, none, some, List, [], ◌∷◌,
  map, Map, get, every_of, some_of, filter_of, includes, sort, insert, text_le, ◌==◌, arith,
}
use atlas_mcp.Protocol.Workflow.{NodeState, NodeStatus, NodeKind, Node}

-- The dependency stands in no one's way: `["verified_complete", "skipped", "compensated"]`.
unfoldable pub is_settled : Option NodeState → Bool
is_settled none = false
is_settled (some s) = elim s.status [
  | NodeStatus.verified_complete ↦ true
  | NodeStatus.skipped ↦ true
  | NodeStatus.compensated ↦ true
  | _ ↦ false
]

unfoldable pub is_pending : Option NodeState → Bool
is_pending none = false
is_pending (some s) = elim s.status [ NodeStatus.pending ↦ true | _ ↦ false ]

unfoldable pub compensates : NodeKind → Bool
compensates (NodeKind.compensation target request) = true
compensates _ = false

-- The filter of `readyNodeIds`
unfoldable pub is_ready : Map NodeState → Node → Bool
is_ready states n =
    not (compensates n.kind)
    && is_pending (get n.id states)
    && every_of (λ id. is_settled (get id states)) n.depends_on

-- `readyNodeIds`, on the nodes of the graph
unfoldable pub ready_node_ids : List Node → Map NodeState → List String
ready_node_ids nodes states = sort text_le (map (λ n. n.id) (filter_of (is_ready states) nodes))

some_of-insert :
    (f : String → Bool) (a : String) (xs : List String)
    → some_of f (insert text_le a xs) ≡ (f a || some_of f xs)
unfolding insert
some_of-insert f a [] = refl
some_of-insert f a (x ∷ xs) = ground (arith, some_of-insert f a xs)

some_of-sort : (f : String → Bool) (xs : List String) → some_of f (sort text_le xs) ≡ some_of f xs
unfolding sort
some_of-sort f [] = refl
some_of-sort f (x ∷ xs) =
    some_of-insert f x (sort text_le xs) ∙ ap (λ b. f x || b) (some_of-sort f xs)

includes-filtered :
    (id : String) (g : Node → Bool) (nodes : List Node)
    → includes id (map (λ n. n.id) (filter_of g nodes)) ≡ some_of (λ n. (n.id == id) && g n) nodes
includes-filtered id g [] = refl
includes-filtered id g (n ∷ nodes) = ground (arith, includes-filtered id g nodes)

-- A node id is listed as ready exactly when a node with that id is no compensation, is pending, and
-- has only dependencies that are complete, skipped or compensated.
pub ready_node_ids_iff :
    (nodes : List Node) (states : Map NodeState) (id : String)
    → includes id (ready_node_ids nodes states)
      ≡ some_of
          (λ n.
            (n.id == id)
            && (not (compensates n.kind)
                && is_pending (get n.id states)
                && every_of (λ d. is_settled (get d states)) n.depends_on))
          nodes
unfolding ready_node_ids is_ready
ready_node_ids_iff nodes states id =
    some_of-sort (λ x. x == id) (map (λ n. n.id) (filter_of (is_ready states) nodes))
    ∙ includes-filtered id (is_ready states) nodes
