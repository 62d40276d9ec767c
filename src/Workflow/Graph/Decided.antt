-- ===== src/Workflow/Graph/Decided.antt =====
-- The rounds that the model gives to `validateWorkflow` of packages/runtime-core/src/workflow-graph.ts.
use atlas_mcp.Prelude.{
  String, ◌≡◌, ◌≢◌, refl, subst, Bool, true, false, not, Option, none, some, List, [], ◌∷◌, Map,
  get, put, has, values, if◌then◌else◌, Result, ok, err, ◌>>=◌, guard, require, ◌==◌, leb, length,
  nat_eq,
}
use atlas_mcp.Protocol.Failure.{Failure, out_of_fuel}
use atlas_mcp.Protocol.Workflow.{NodeKind, Node, Definition}
use atlas_mcp.Workflow.Graph.{
  Graph, nodes_by_id, check_dependencies, check_kind, check_nodes, layers_of, processed,
  has_dependency, check_approval_order, check_approvals, validate_workflow,
}
use atlas_mcp.Workflow.Graph.Layers.{layers_of-Ends}
use atlas_mcp.Workflow.Graph.Search.{has_dependency-Answers}

unfoldable is_fuel : Failure → Bool
is_fuel out_of_fuel = true
is_fuel _ = false

abbrev Decided {ℓ} : {A : Type ℓ} → Result Failure A → Type 0
Decided (ok a) = Unit
Decided (err e) = is_fuel e ≡ false

module _ {ℓ κ} {A : Type ℓ} {B : Type κ} where
  Decided-then :
      (m : Result Failure A) (f : A → Result Failure B)
      → Decided m
      → ((a : A) → Decided (f a))
      → Decided (m >>= f)
  Decided-then (ok a) f first rest = rest a
  Decided-then (err e) f first rest = first

Decided-guard : (b : Bool) (e : Failure) → is_fuel e ≡ false → Decided (guard b e)
Decided-guard true e other = tt
Decided-guard false e other = other

Decided-require {ℓ} :
    {A : Type ℓ} (o : Option A) (e : Failure) → is_fuel e ≡ false → Decided (require o e)
Decided-require none e other = other
Decided-require (some a) e other = tt

Decided-found {ℓ} :
    {A : Type ℓ} (o : Option A) (e : Failure) → (a : A) × (o ≡ some a) → Decided (require o e)
Decided-found none e (a, there) = cc
Decided-found (some x) e (a, there) = tt

Decided-if {ℓ} :
    {A : Type ℓ} (b : Bool) (m n : Result Failure A)
    → Decided m
    → Decided n
    → Decided (if b then m else n)
Decided-if true m n left right = left
Decided-if false m n left right = right

nodes_by_id-Decided : (ns : List Node) (m : Map Node) → Decided (nodes_by_id ns m)
unfolding nodes_by_id is_fuel
nodes_by_id-Decided [] m = tt
nodes_by_id-Decided (n ∷ ns) m =
    Decided-if (has n.id m) _ _ refl (nodes_by_id-Decided ns (put n.id n m))

check_dependencies-Decided :
    (m : Map Node) (id : String) (ds : List String) → Decided (check_dependencies m id ds)
unfolding check_dependencies is_fuel
check_dependencies-Decided m id [] = tt
check_dependencies-Decided m id (d ∷ ds) =
    Decided-then (guard (not (d == id)) _) _ (Decided-guard _ _ refl) λ _.
      Decided-then (guard (has d m) _) _ (Decided-guard _ _ refl)
        λ _. check_dependencies-Decided m id ds

check_kind-Decided : (m : Map Node) (id : String) (kind : NodeKind) → Decided (check_kind m id kind)
unfolding check_kind is_fuel
check_kind-Decided m id (NodeKind.approval target) = Decided-guard _ _ refl
check_kind-Decided m id (NodeKind.compensation target request) =
    Decided-then (require (get target m) _) _ (Decided-require _ _ refl) λ _. Decided-guard _ _ refl
check_kind-Decided m id (NodeKind.condition source predicate when_true when_false) =
    Decided-then (require (get source m) _) _ (Decided-require _ _ refl) λ _. Decided-guard _ _ refl
check_kind-Decided m id _ = tt

check_nodes-Decided : (m : Map Node) (ns : List Node) → Decided (check_nodes m ns)
unfolding check_nodes
check_nodes-Decided m [] = tt
check_nodes-Decided m (n ∷ ns) =
    Decided-then (check_dependencies m n.id n.depends_on) _ (check_dependencies-Decided _ _ _) λ _.
      Decided-then (check_kind m n.id n.kind) _ (check_kind-Decided _ _ _)
        λ _. check_nodes-Decided m ns

check_approval_order-Decided :
    (m : Map Node) (id : String) (kind : NodeKind) → Decided (check_approval_order m id kind)
unfolding check_approval_order is_fuel
check_approval_order-Decided m id (NodeKind.approval target) =
    Decided-then (require (has_dependency m target id) _) _
      (Decided-found _ _ (has_dependency-Answers m target id)) λ _. Decided-guard _ _ refl
check_approval_order-Decided m id _ = tt

check_approvals-Decided : (m : Map Node) (ns : List Node) → Decided (check_approvals m ns)
unfolding check_approvals
check_approvals-Decided m [] = tt
check_approvals-Decided m (n ∷ ns) =
    Decided-then (check_approval_order m n.id n.kind) _ (check_approval_order-Decided _ _ _)
      λ _. check_approvals-Decided m ns

validate_workflow-Decided : (d : Definition) → Decided (validate_workflow d)
unfolding validate_workflow is_fuel
validate_workflow-Decided d =
    Decided-then (guard (leb (length d.nodes) 500) _) _ (Decided-guard _ _ refl) λ _.
      Decided-then (nodes_by_id d.nodes []) _ (nodes_by_id-Decided _ _) λ m.
        Decided-then (check_nodes m (values m)) _ (check_nodes-Decided _ _) λ _.
          Decided-then (require (layers_of (values m)) _) _ (Decided-found _ _ (layers_of-Ends _))
            λ layers.
              Decided-then (guard (nat_eq (processed layers) (length m)) _) _
                (Decided-guard _ _ refl)
                λ _.
                  Decided-then (check_approvals m (values m)) _ (check_approvals-Decided _ _)
                    λ _. tt

no_fuel : true ≢ false
no_fuel e = cc

Decided-fuel : (r : Result Failure Graph) → Decided r → r ≢ err out_of_fuel
unfolding is_fuel
Decided-fuel r decided = λ e. no_fuel (subst Decided e decided)

-- The validation of a definition ends: neither the loop over the layers nor a search for a
-- dependency runs out of the rounds that the model gives it.
pub validate_workflow_ends : (d : Definition) → validate_workflow d ≢ err out_of_fuel
validate_workflow_ends d = Decided-fuel (validate_workflow d) (validate_workflow-Decided d)
