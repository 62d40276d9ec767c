-- ===== src/Workflow/Graph/Validated.antt =====
-- What `validateWorkflow` of packages/runtime-core/src/workflow-graph.ts returns.
use atlas_mcp.Prelude.{
  ℕ, ◌+◌, ◌≤◌, String, ◌≡◌, true, false, ◌||◌, List, [], ◌∷◌, map, Map, get, put, get-put, has,
  values, ◌==◌, leb, nat_eq, if◌then◌else◌, length, ok, err, OnOk, OnOk-then, OnOk-at, OnOk-if,
  guard, guard-eq-ok, require, require-eq-ok, arith,
}
use atlas_mcp.Protocol.Failure.{
  node_limit_exceeded, node_id_duplicate, dependency_cycle, out_of_fuel,
}
use atlas_mcp.Protocol.Workflow.{Node, Definition}
use atlas_mcp.Workflow.Graph.{
  Graph, nodes_by_id, check_nodes, check_approvals, layers_of, processed, validate_workflow,
}
use atlas_mcp.Workflow.Graph.Counts.{occurrences, AreDistinct}
use atlas_mcp.Workflow.Graph.Order.{Ordered, layers_of-Ordered}

ids_in : Map Node → List String
ids_in m = map (λ n. n.id) (values m)

-- An id stands at most once among the nodes of the map, and only if it is a key.
abbrev Keyed : Map Node → Type 0
Keyed m = (y : String) → occurrences y (ids_in m) ≤ (if has y m then 1 else 0)

occurrences-put :
    (n : Node) (y : String) (m : Map Node)
    → has n.id m ≡ false
    → occurrences y (ids_in (put n.id n m))
      ≡ occurrences y (ids_in m) + (if n.id == y then 1 else 0)
unfolding put get has values occurrences ids_in
occurrences-put n y [] new = ground arith
occurrences-put n y ((k, w) ∷ m) new = ground (arith, occurrences-put n y m)

has-put : (k y : String) (n : Node) (m : Map Node) → has y (put k n m) ≡ ((k == y) || has y m)
unfolding has
has-put k y n m = ground (arith, get-put k y n m)

has_eq : (k y : String) (m : Map Node) → (k == y) ≡ true → has k m ≡ has y m
has_eq k y m same = ground arith

Keyed-put : (n : Node) (m : Map Node) → has n.id m ≡ false → Keyed m → Keyed (put n.id n m)
Keyed-put n m new keyed y =
    let more = occurrences-put n y m new in
    let there = has-put n.id y n m in
    let before = keyed y in let same = has_eq n.id y m in ground arith

nodes_by_id-Keyed : (ns : List Node) (m : Map Node) → Keyed m → OnOk Keyed (nodes_by_id ns m)
unfolding nodes_by_id
nodes_by_id-Keyed [] m keyed = keyed
nodes_by_id-Keyed (n ∷ ns) m keyed =
    OnOk-if Keyed (has n.id m) (err node_id_duplicate) (nodes_by_id ns (put n.id n m)) (λ _. tt)
      (λ new. nodes_by_id-Keyed ns (put n.id n m) (Keyed-put n m new keyed))

Keyed-distinct : (m : Map Node) → Keyed m → AreDistinct (values m)
unfolding ids_in
Keyed-distinct m keyed y = let bound = keyed y in ground arith

Keyed-empty : Keyed []
unfolding ids_in occurrences values
Keyed-empty y = ground arith

nat_eq-eq : (m n : ℕ) → nat_eq m n ≡ true → m ≡ n
nat_eq-eq m n same = ground arith

-- The layers of a definition that is valid are a topological order of its nodes: every node of a
-- layer has all its dependencies in the layers before, and the layers have as many ids as there are
-- nodes.
pub validate_workflow-Ordered :
    (d : Definition)
    → OnOk
        (λ g. Ordered (values g.nodes) [] g.layers × (processed g.layers ≡ length g.nodes))
        (validate_workflow d)
unfolding validate_workflow
validate_workflow-Ordered d =
    let Sorted : Graph → Type 0 =
      λ g. Ordered (values g.nodes) [] g.layers × (processed g.layers ≡ length g.nodes) in
    OnOk-then Sorted (guard (leb (length d.nodes) 500) node_limit_exceeded) _ λ _ _.
      OnOk-then Sorted (nodes_by_id d.nodes []) _ λ m keyed.
        OnOk-then Sorted (check_nodes m (values m)) _ λ _ _.
          OnOk-then Sorted (require (layers_of (values m)) out_of_fuel) _ λ layers found.
            OnOk-then Sorted (guard (nat_eq (processed layers) (length m)) dependency_cycle) _
              λ _ counted.
                OnOk-then Sorted (check_approvals m (values m))
                  (λ _. ok (record { nodes = m; layers = layers }))
                  λ _ _. (
                    layers_of-Ordered (values m) layers
                        (Keyed-distinct m (
                          OnOk-at Keyed (nodes_by_id d.nodes []) m
                            (nodes_by_id-Keyed d.nodes [] Keyed-empty) keyed))
                        (require-eq-ok (layers_of (values m)) out_of_fuel found),
                    nat_eq-eq (processed layers) (length m) (
                        guard-eq-ok (nat_eq (processed layers) (length m)) dependency_cycle
                          counted),
                  )
