-- ===== src/Workflow/Graph.antt =====
-- `validateWorkflow` of packages/runtime-core/src/workflow-graph.ts.
pub mod Layers
pub mod Search
pub mod Decided
pub mod Counts
pub mod Offers
pub mod Order
pub mod Validated
use atlas_mcp.Prelude.{
  ℕ, zero, suc, ◌+◌, ◌-◌, String, Bool, true, false, not, ◌&&◌, Option, none, some, List, [], ◌∷◌,
  ◌++◌, map, Map, get, put, has, keys, values, ◌==◌, ltb, leb, nat_eq, if◌then◌else◌, or_else,
  length, filter_of, includes, sort, text_le, Result, ok, err, ◌>>=◌, ◌>>◌, guard, require,
}
use atlas_mcp.Protocol.Failure.{
  Failure, node_limit_exceeded, node_id_duplicate, dependency_cycle, node_self_dependency,
  dependency_missing, approval_target_missing, approval_must_precede_target,
  compensation_target_missing, compensation_target_not_operation, condition_source_missing,
  condition_source_not_operation, out_of_fuel,
}
use atlas_mcp.Protocol.Workflow.{NodeKind, Node, Definition}

pub record Graph : Type 0 where
  pub nodes : Map Node
  pub layers : List (List String)

-- The map of the nodes by id
unfoldable pub nodes_by_id : List Node → Map Node → Result Failure (Map Node)
nodes_by_id [] m = ok m
nodes_by_id (n ∷ ns) m =
    let rest = nodes_by_id ns (put n.id n m) in if has n.id m then err node_id_duplicate else rest

unfoldable pub check_dependencies : Map Node → String → List String → Result Failure (Unit {0})
check_dependencies m id [] = ok tt
check_dependencies m id (d ∷ ds) = do
  guard (not (d == id)) (node_self_dependency id)
  guard (has d m) (dependency_missing id d)
  check_dependencies m id ds

unfoldable pub is_operation : NodeKind → Bool
is_operation (NodeKind.operation request) = true
is_operation _ = false

-- The checks on what a node refers to
unfoldable pub check_kind : Map Node → String → NodeKind → Result Failure (Unit {0})
check_kind m id (NodeKind.approval target) = guard (has target m) (approval_target_missing id)
check_kind m id (NodeKind.compensation target request) = do
  node ← require (get target m) (compensation_target_missing id)
  guard (is_operation node.kind) (compensation_target_not_operation id)
check_kind m id (NodeKind.condition source predicate when_true when_false) = do
  node ← require (get source m) (condition_source_missing id)
  guard (is_operation node.kind) (condition_source_not_operation id)
check_kind m id _ = ok tt

unfoldable pub check_nodes : Map Node → List Node → Result Failure (Unit {0})
check_nodes m [] = ok tt
check_nodes m (n ∷ ns) = do
  check_dependencies m n.id n.depends_on
  check_kind m n.id n.kind
  check_nodes m ns

-- `indegrees`
unfoldable pub indegrees_of : List Node → Map ℕ
indegrees_of nodes = map (λ n. (n.id, length n.depends_on)) nodes

unfoldable pub add_dependent : String → List String → Map (List String) → Map (List String)
add_dependent id [] m = m
add_dependent id (d ∷ ds) m = add_dependent id ds (put d (or_else (get d m) [] ++ (id ∷ [])) m)

unfoldable pub add_dependents : List Node → Map (List String) → Map (List String)
add_dependents [] m = m
add_dependents (n ∷ ns) m = add_dependents ns (add_dependent n.id n.depends_on m)

-- `dependents`
unfoldable pub dependents_of : List Node → Map (List String)
dependents_of nodes = add_dependents nodes []

-- The dependents of one node, each with one dependency less. `remaining === 0` is read off the
-- number before; a count is never taken below 0, since it is the number of its node's dependencies.
unfoldable pub relax : Map ℕ → List String → List String → Map ℕ × List String
relax degrees next [] = (degrees, next)
relax degrees next (c ∷ cs) =
    let count = or_else (get c degrees) 0 in
    relax (put c (count - 1) degrees) (if nat_eq count 1 then next ++ (c ∷ []) else next) cs

-- The two loops over a layer
unfoldable pub relax_layer :
    Map (List String) → Map ℕ → List String → List String → Map ℕ × List String
relax_layer dependents degrees next [] = (degrees, next)
relax_layer dependents degrees next (id ∷ ids) =
    let done = relax degrees next (or_else (get id dependents) []) in
    relax_layer dependents done.0 done.1 ids

unfoldable pub consed : {A : Type 0} → A → Option (List A) → Option (List A)
consed x none = none
consed x (some xs) = some (x ∷ xs)

-- `while (ready.length > 0)`; `none` when the fuel runs out
unfoldable pub layer_loop :
    ℕ → Map (List String) → Map ℕ → List String → Option (List (List String))
layer_loop fuel dependents degrees [] = some []
layer_loop zero dependents degrees (id ∷ ids) = none
layer_loop (suc fuel) dependents degrees (id ∷ ids) =
    let done = relax_layer dependents degrees [] (id ∷ ids) in
    consed (id ∷ ids) (layer_loop fuel dependents done.0 (sort text_le done.1))

abbrev pub roots : List Node → List String
roots nodes =
    sort text_le
      (filter_of (λ id. nat_eq (or_else (get id (indegrees_of nodes)) 1) 0) (map (λ n. n.id) nodes))

-- `layers`
unfoldable pub layers_of : List Node → Option (List (List String))
layers_of nodes =
    layer_loop (suc (length nodes)) (dependents_of nodes) (indegrees_of nodes) (roots nodes)

-- `processed`
unfoldable pub processed : List (List String) → ℕ
processed [] = 0
processed (layer ∷ layers) = length layer + processed layers

-- `pending.push(...ids)`, the last one on top
unfoldable pub push_all : List String → List String → List String
push_all [] stack = stack
push_all (id ∷ ids) stack = push_all ids (id ∷ stack)

-- `nodes.get(id)!.dependsOn`; every id that is looked up is a node's
unfoldable pub dependencies : Map Node → String → List String
dependencies nodes id = elim (get id nodes) [ none ↦ [] | some n ↦ n.depends_on ]

-- The loop of `hasDependency`; `none` when the fuel runs out
unfoldable pub search_loop :
    ℕ → Map Node → (wanted : String) → (visited pending : List String) → Option Bool
search_loop fuel nodes wanted visited [] = some false
search_loop zero nodes wanted visited (id ∷ pending) = none
search_loop (suc fuel) nodes wanted visited (id ∷ pending) =
    let skipped = search_loop fuel nodes wanted visited pending in
    let entered =
      search_loop fuel nodes wanted (id ∷ visited) (push_all (dependencies nodes id) pending) in
    if id == wanted then some true else if includes id visited then skipped else entered

-- How many dependencies the nodes have that are not visited
unfoldable pub unvisited : List String → Map Node → ℕ
unvisited visited [] = 0
unvisited visited ((id, n) ∷ nodes) =
    (if includes id visited then 0 else length n.depends_on) + unvisited visited nodes

-- `hasDependency`
unfoldable pub has_dependency : Map Node → String → String → Option Bool
has_dependency nodes id wanted =
    search_loop (length (dependencies nodes id) + unvisited [] nodes) nodes wanted []
      (push_all (dependencies nodes id) [])

unfoldable pub check_approval_order : Map Node → String → NodeKind → Result Failure (Unit {0})
check_approval_order m id (NodeKind.approval target) = do
  precedes ← require (has_dependency m target id) out_of_fuel
  guard precedes (approval_must_precede_target id)
check_approval_order m id _ = ok tt

unfoldable pub check_approvals : Map Node → List Node → Result Failure (Unit {0})
check_approvals m [] = ok tt
check_approvals m (n ∷ ns) = do check_approval_order m n.id n.kind; check_approvals m ns

-- `validateWorkflow`, on a definition that passed its schema
unfoldable pub validate_workflow : Definition → Result Failure Graph
validate_workflow d = do
  guard (leb (length d.nodes) 500) node_limit_exceeded
  m ← nodes_by_id d.nodes []
  check_nodes m (values m)
  layers ← require (layers_of (values m)) out_of_fuel
  guard (nat_eq (processed layers) (length m)) dependency_cycle
  check_approvals m (values m)
  ok (record { nodes = m; layers = layers })
