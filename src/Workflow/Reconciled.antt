-- ===== src/Workflow/Reconciled.antt =====
-- What `recoverInterrupted` of packages/runtime-core/src/workflow-controller.ts makes of the nodes and
-- the status of a run.
use atlas_mcp.Prelude.{
  String, ◌≡◌, ◌≢◌, refl, sym, ap, ◌∙◌, subst, Bool, false, none, some, List, [], ◌∷◌, ◌++◌, Map,
  text_dec, holds, if◌then◌else◌, ◌⊎◌, inl, inr, In, Bool-cases,
}
use atlas_mcp.Protocol.Task.{TaskRecord}
use atlas_mcp.Protocol.Workflow.{
  Definition, Node, Run, NodeState, NodeState-discrete, WorkflowStatus, WorkflowStatus-discrete,
}
use atlas_mcp.Store.Workflows.{is_empty}
use atlas_mcp.Workflow.Transition.{Draft}
use atlas_mcp.Workflow.Keys.{KeyOf}
use atlas_mcp.Workflow.Statuses.{derive_status}
use atlas_mcp.Workflow.Advance.Once.{set_node, state_of, skip_if_complete}
use atlas_mcp.Workflow.Skipped.{
  state_at, state_of-set_node, state_of-set_node_ne, Only, KeptOrSkipped, skip_if_complete-state,
}
use atlas_mcp.Workflow.Recovery.{recovery_draft, recover_nodes, recovered_state, close_recovery}

-- The ids of a definition name its nodes.
abbrev pub NamesNodes : Definition → Type 0
NamesNodes d = (n m : Node) → In n d.nodes → In m d.nodes → m.id ≡ n.id → m ≡ n

module _ (key : KeyOf) (tasks : List TaskRecord) (replayed : Run) (d : Definition) where
  abbrev settled : Node → NodeState
  settled n = recovered_state key tasks replayed d n

  -- The draft after one node of the loop.
  abbrev stepped : Node → Draft → Draft
  stepped m draft =
      if holds (NodeState-discrete (state_of draft.run m.id) (settled m))
      then draft
      else set_node m.id (settled m) draft

  stepped-own : (m : Node) (draft : Draft) → state_of (stepped m draft).run m.id ≡ settled m
  stepped-own m draft =
      elim (NodeState-discrete (state_of draft.run m.id) (settled m))
        as (λ x.
          state_of (if holds x then draft else set_node m.id (settled m) draft).run m.id
          ≡ settled m) [ yes same ↦ same | no n ↦ state_of-set_node m.id (settled m) draft ]

  stepped-other :
      (m : Node) (j : String) (draft : Draft)
      → m.id ≢ j
      → state_of (stepped m draft).run j ≡ state_of draft.run j
  stepped-other m j draft apart =
      elim (NodeState-discrete (state_of draft.run m.id) (settled m))
        as (λ x.
          state_of (if holds x then draft else set_node m.id (settled m) draft).run j
          ≡ state_of draft.run j) [
            | yes same ↦ refl
            | no n ↦ state_of-set_node_ne m.id j (settled m) draft apart
          ]

  recover_nodes-state :
      (ns : List Node) (draft : Draft) (n : Node)
      → Only n ns
      → In n ns ⊎ (state_of draft.run n.id ≡ settled n)
      → state_of (recover_nodes key tasks replayed d ns draft).run n.id ≡ settled n
  unfolding recover_nodes
  recover_nodes-state [] draft n only (inl h) = elim h [ ]
  recover_nodes-state [] draft n only (inr h) = h
  recover_nodes-state (m ∷ ms) draft n only h =
      recover_nodes-state ms (stepped m draft) n (λ x i. only x (inr i))
        (elim (text_dec m.id n.id) [
          | yes same ↦ inr (
              subst (λ x. state_of (stepped m draft).run x.id ≡ settled x) (only m (inl refl) same)
                (stepped-own m draft))
          | no apart ↦ elim h [
            | inl (inl e) ↦ elim (apart (ap (λ x. x.id) e)) [ ]
            | inl (inr i) ↦ inl i
            | inr e ↦ inr (stepped-other m n.id draft apart ∙ e)
          ]
        ])

-- The status that the states of the nodes give, and the error that goes with it.
abbrev pub Closed : (String → Bool) → Definition → Run → Map NodeState → Type 0
Closed certified d r nodes =
    (r.status ≡ derive_status certified nodes d.nodes)
    × (r.error ≡ (
        if holds (WorkflowStatus-discrete r.status WorkflowStatus.recovery_required)
        then some "workflow_contains_unreconciled_mutation"
        else none))

is_empty-push {ℓ} : {A : Type ℓ} (xs : List A) (x : A) → is_empty (xs ++ (x ∷ [])) ≡ false
is_empty-push [] x = refl
is_empty-push (y ∷ ys) x = refl

pub close_recovery-Closed :
    (certified : String → Bool) (d : Definition) (draft : Draft) (to : WorkflowStatus)
    → to ≡ derive_status certified draft.run.nodes d.nodes
    → Closed certified d (close_recovery to draft).run draft.run.nodes
      × ((close_recovery to draft).run.nodes ≡ draft.run.nodes)
      × (is_empty (close_recovery to draft).emitted ≡ false)
unfolding close_recovery
close_recovery-Closed certified d draft to e =
    elim (Bool-cases (holds (WorkflowStatus-discrete to WorkflowStatus.recovery_required))) [
      | inl h ↦ rw h ((e, rw h refl), refl, is_empty-push draft.emitted _)
      | inr h ↦ rw h ((e, rw h refl), refl, is_empty-push draft.emitted _)
    ]

-- The states of the nodes that a recovery leaves: what their tasks make of the replayed states, but
-- for compensations that are skipped.
abbrev pub Restored : KeyOf → List TaskRecord → Run → Definition → Map NodeState → Type 0
Restored key tasks replayed d nodes =
    (n : Node)
    → In n d.nodes
    → KeptOrSkipped n (recovered_state key tasks replayed d n) (state_at nodes n.id)

-- What a draft of a recovery holds: restored nodes, and the status and error that they give.
pub recovery_draft-Restored :
    (key : KeyOf) (certified : String → Bool) (tasks : List TaskRecord) (replayed stored : Run)
    (d : Definition)
    → NamesNodes d
    → Restored key tasks replayed d (recovery_draft key certified tasks replayed d stored).run.nodes
      × Closed certified d
          (recovery_draft key certified tasks replayed d stored).run
          (recovery_draft key certified tasks replayed d stored).run.nodes
      × (is_empty (recovery_draft key certified tasks replayed d stored).emitted ≡ false)
unfolding recovery_draft
recovery_draft-Restored key certified tasks replayed stored d named =
    let nodes =
      recover_nodes key tasks replayed d d.nodes (record { run = stored; emitted = [] }) in
    let draft = skip_if_complete certified d nodes in
    let last = close_recovery (derive_status certified draft.run.nodes d.nodes) draft in
    let (closed, same, emits) = close_recovery-Closed certified d draft _ refl in
    (
      λ n i.
          subst (λ m. KeptOrSkipped n (recovered_state key tasks replayed d n) (state_at m n.id))
            (sym same)
            (subst (λ a. KeptOrSkipped n a (state_of draft.run n.id))
              (recover_nodes-state key tasks replayed d d.nodes _ n (λ m j. named n m i j) (inl i))
              (skip_if_complete-state certified d nodes n (λ m j. named n m i j))),
      subst (Closed certified d last.run) (sym same) closed,
      emits,
    )
