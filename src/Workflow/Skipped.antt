-- ===== src/Workflow/Skipped.antt =====
-- What one write to the nodes of a draft changes, and what skipping the needless compensations of a
-- complete run changes, in packages/runtime-core/src/workflow-controller.ts.
use atlas_mcp.Prelude.{
  String, ◌≡◌, ◌≢◌, refl, sym, ap, ◌∙◌, subst, Bool, true, List, [], ◌∷◌, Map, get, get-put_self,
  get-put_ne, text_dec, holds, or_else, ◌&&◌, ◌⊎◌, inl, inr, In, Bool-cases, arith,
}
use atlas_mcp.Protocol.Workflow.{
  Definition, Node, NodeState, NodeStatus, WorkflowStatus, WorkflowStatus-discrete,
}
use atlas_mcp.Workflow.Transition.{Draft}
use atlas_mcp.Workflow.Nodes.{bare, has_status}
use atlas_mcp.Workflow.Ready.{compensates}
use atlas_mcp.Workflow.Statuses.{derive_status}
use atlas_mcp.Workflow.Advance.Once.{
  set_node, state_of, skip_node, shared, skipped_state, skip_nodes, skip_if_complete,
}

-- The state under an id in a map of states, pending where there is none.
abbrev pub state_at : Map NodeState → String → NodeState
state_at nodes id = or_else (get id nodes) (bare NodeStatus.pending [])

pub state_of-set_node :
    (id : String) (state : NodeState) (d : Draft) → state_of (set_node id state d).run id ≡ state
unfolding set_node
state_of-set_node id state d =
    ap (λ o. or_else o (bare NodeStatus.pending [])) (get-put_self id state d.run.nodes)

pub state_of-set_node_ne :
    (id j : String) (state : NodeState) (d : Draft)
    → id ≢ j
    → state_of (set_node id state d).run j ≡ state_of d.run j
unfolding set_node
state_of-set_node_ne id j state d n =
    ap (λ o. or_else o (bare NodeStatus.pending [])) (get-put_ne id j state d.run.nodes n)

-- A node of the list with the id of `n` is `n`.
abbrev pub Only : Node → List Node → Type 0
Only n ns = (m : Node) → In m ns → m.id ≡ n.id → m ≡ n

-- The state `b` of a node is the state `a`, or that of a compensation which is skipped.
abbrev pub KeptOrSkipped : Node → NodeState → NodeState → Type 0
KeptOrSkipped n a b =
    (b ≡ a) ⊎ ((compensates n.kind ≡ true) × (b ≡ record a { status = NodeStatus.skipped }))

KeptOrSkipped-trans :
    (n : Node) (a b c : NodeState) → KeptOrSkipped n a b → KeptOrSkipped n b c → KeptOrSkipped n a c
KeptOrSkipped-trans n a b c (inl p) (inl q) = inl (q ∙ p)
KeptOrSkipped-trans n a b c (inl p) (inr (k, q)) =
    inr
      (k, q ∙ ap {A = NodeState} {B = NodeState} (λ x. record x { status = NodeStatus.skipped }) p)
KeptOrSkipped-trans n a b c (inr (k, p)) (inl q) = inr (k, q ∙ p)
KeptOrSkipped-trans n a b c (inr (k, p)) (inr (_, q)) =
    inr
      (k, q ∙ ap {A = NodeState} {B = NodeState} (λ x. record x { status = NodeStatus.skipped }) p)

skip_node-state :
    (m n : Node) (draft : Draft)
    → (m.id ≡ n.id → m ≡ n)
    → KeptOrSkipped n (state_of draft.run n.id) (state_of (skip_node m draft).run n.id)
unfolding skip_node
skip_node-state m n draft only =
    elim (Bool-cases
      (compensates m.kind && has_status NodeStatus.pending (state_of draft.run m.id))) [
        | inr e ↦ rw e (inl refl)
        | inl e ↦ rw e (elim (text_dec m.id n.id) [
          | no apart ↦ inl (
              state_of-set_node_ne m.id n.id _
                (shared m.id (skipped_state (state_of draft.run m.id)) draft) apart)
          | yes same ↦
              let whole = only same in
              let compensating : compensates m.kind ≡ true = ground arith in
              inr (
                ap (λ x. compensates x.kind) (sym whole) ∙ compensating,
                subst
                    (λ x.
                      state_of
                        (set_node m.id (skipped_state (state_of draft.run m.id))
                          (shared m.id (skipped_state (state_of draft.run m.id)) draft)).run
                        x.id
                      ≡ record (state_of draft.run x.id) { status = NodeStatus.skipped })
                    whole
                    (state_of-set_node m.id _
                      (shared m.id (skipped_state (state_of draft.run m.id)) draft)),
              )
        ])
      ]

skip_nodes-state :
    (ns : List Node) (draft : Draft) (n : Node)
    → Only n ns
    → KeptOrSkipped n (state_of draft.run n.id) (state_of (skip_nodes ns draft).run n.id)
unfolding skip_nodes
skip_nodes-state [] draft n only = inl refl
skip_nodes-state (m ∷ ms) draft n only =
    KeptOrSkipped-trans n _ _ _ (skip_node-state m n draft (only m (inl refl)))
      (skip_nodes-state ms (skip_node m draft) n (λ x i. only x (inr i)))

pub skip_if_complete-state :
    (certified : String → Bool) (d : Definition) (draft : Draft) (n : Node)
    → Only n d.nodes
    → KeptOrSkipped n
        (state_of draft.run n.id)
        (state_of (skip_if_complete certified d draft).run n.id)
unfolding skip_if_complete
skip_if_complete-state certified d draft n only =
    elim (Bool-cases (
      holds (
        WorkflowStatus-discrete (derive_status certified draft.run.nodes d.nodes)
          WorkflowStatus.verified_complete))) [
            | inl e ↦ rw e (skip_nodes-state d.nodes draft n only)
            | inr e ↦ rw e (inl refl)
          ]
