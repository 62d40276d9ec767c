-- ===== src/Workflow/Replayed.antt =====
-- Recovery in packages/runtime-core/src/workflow-controller.ts: what it replays, and what it stores.
use atlas_mcp.Prelude.{
  String, ◌≡◌, refl, ap, ◌∙◌, Bool, none, some, List, get, ok, OnOk, OnOk-then, OnOk-at, handle,
  nat_eq, guard, guard-eq-ok, OnOk-weaken, Map, sort, sym, subst, true, false, holds, if◌then◌else◌,
  Result, err,
}
use atlas_mcp.Protocol.Task.{TaskRecord}
use atlas_mcp.Protocol.Failure.{workflow_event_history_invalid, projection_event_mismatch}
use atlas_mcp.Protocol.Workflow.{
  Run, Run-discrete, Definition, NodeState, WorkflowStatus, WorkflowStatus-discrete,
}
use atlas_mcp.Events.Reduce.{rebuild}
use atlas_mcp.Events.Replay.{IsHistory, rebuild-IsHistory}
use atlas_mcp.Store.Workflows.{
  WorkflowStore, list_events, latest_snapshot, transition_workflow, is_empty,
}
use atlas_mcp.Workflow.Transition.{
  Clock, Draft, transition, store_transition, same_json, canonical, by_key, make_events,
  replay_from,
}
use atlas_mcp.Workflow.Creation.{parse_run-valid}
use atlas_mcp.Workflow.Reconciled.{NamesNodes, Restored, Closed, recovery_draft-Restored}
use atlas_mcp.Events.Reduce.{parse_run}
use atlas_mcp.Workflow.History.{events_of, list_events_lem}
use atlas_mcp.Workflow.Consistency.{IsConsistent, transition-Sound}
use atlas_mcp.Workflow.Keys.{KeyOf}
use atlas_mcp.Workflow.Advance.Once.{load_definition}
use atlas_mcp.Workflow.Recovery.{replay_run, recover_run, recovery_draft}

listed-history :
    (s : WorkflowStore) (id : String) (r : Run)
    → IsConsistent s
    → get id s.runs ≡ some r
    → rebuild none (list_events s id 0) ≡ ok r
listed-history s id r consistent stored =
    let history = consistent.rebuilt id r stored in
    let numbered =
      (OnOk-at (IsHistory (events_of id s.events)) (rebuild none (events_of id s.events)) r
        (rebuild-IsHistory (events_of id s.events)) history).numbered in
    ap (rebuild none) (list_events_lem s id numbered) ∙ history

-- In a consistent store, the replay of a stored run without snapshots gives that run.
pub replay_run-stored :
    (s : WorkflowStore) (id : String) (r : Run)
    → IsConsistent s
    → get id s.runs ≡ some r
    → latest_snapshot id s.snapshots ≡ none
    → replay_run s id ≡ ok r
unfolding replay_run handle
replay_run-stored s id r consistent stored fresh =
    rw (fresh, listed-history s id r consistent stored) refl

-- A run has the status, the error and, up to their order, the nodes of a draft.
abbrev AsDrafted : Draft → Run × WorkflowStore → Type 0
AsDrafted d (r, s) =
    (r.status ≡ d.run.status)
    × (r.error ≡ d.run.error)
    × (sort by_key r.nodes ≡ sort by_key d.run.nodes)

holds_true {ℓ} : {A : Type ℓ} (d : Dec A) → holds d ≡ true → A
holds_true (yes a) h = a
holds_true (no n) h = cc

same_json-canonical : (a b : Run) → same_json a b ≡ true → canonical a ≡ canonical b
unfolding same_json
same_json-canonical a b h = holds_true (Run-discrete (canonical a) (canonical b)) h

store_transition-AsDrafted :
    (clock : Clock) (s : WorkflowStore) (current : Run) (d : Draft)
    → OnOk (AsDrafted d) (store_transition clock s current d)
unfolding store_transition canonical
store_transition-AsDrafted clock s current d =
    let events = make_events clock current current.state_version d.emitted in
    OnOk-then (AsDrafted d) (parse_run _) _ λ expected parsed.
      OnOk-then (AsDrafted d) (replay_from current events) _ λ rebuilt replayed.
        OnOk-then (AsDrafted d) (guard (same_json rebuilt expected) projection_event_mismatch) _
          λ _ passed.
            OnOk-then (AsDrafted d)
              (transition_workflow s current.id current.state_version rebuilt events) _
              λ s' _.
                let whole = (parse_run-valid _ expected parsed).1 in
                let same =
                  same_json-canonical rebuilt expected
                    (guard-eq-ok _ projection_event_mismatch passed) in
                (
                  ap (λ r. r.status) same ∙ ap (λ r. r.status) (sym whole),
                  ap (λ r. r.error) same ∙ ap (λ r. r.error) (sym whole),
                  ap (λ r. r.nodes) same ∙ ap (λ r. sort by_key r.nodes) (sym whole),
                )

-- A run that a transition of a draft which emits returns is as the draft.
transition-AsDrafted :
    (clock : Clock) (s : WorkflowStore) (current : Run) (d : Draft)
    → is_empty d.emitted ≡ false
    → OnOk (AsDrafted d) (transition clock s current d)
unfolding transition
transition-AsDrafted clock s current d emits =
    rw emits (store_transition-AsDrafted clock s current d)

OnOk-both {ℓ κ μ ν} :
    {E : Type κ} {A : Type ℓ} (P : A → Type μ) (Q : A → Type ν) (m : Result E A)
    → OnOk P m
    → OnOk Q m
    → OnOk (λ a. P a × Q a) m
OnOk-both P Q (ok a) p q = (p, q)
OnOk-both P Q (err e) p q = tt

-- What recovery makes of a run: the nodes are restored, up to their order, and the status and the
-- error are those that they give.
abbrev pub Recovered : KeyOf → (String → Bool) → List TaskRecord → Run → Definition → Run → Type 0
Recovered key certified tasks replayed d r =
    (nodes : Map NodeState) × (sort by_key r.nodes ≡ sort by_key nodes)
    × Restored key tasks replayed d nodes
    × Closed certified d r nodes

AsDrafted-Recovered :
    (key : KeyOf) (certified : String → Bool) (tasks : List TaskRecord) (replayed r : Run)
    (d : Definition) (draft : Draft) (s : WorkflowStore)
    → AsDrafted draft (r, s)
    → Restored key tasks replayed d draft.run.nodes
    → Closed certified d draft.run draft.run.nodes
    → Recovered key certified tasks replayed d r
AsDrafted-Recovered key certified tasks replayed r d draft s (status, error, nodes) restored
      (derived, explained) =
    (
      draft.run.nodes,
      nodes,
      restored,
      (
        status ∙ derived,
        error
            ∙ subst
                (λ x. draft.run.error ≡ (
                  if holds (WorkflowStatus-discrete x WorkflowStatus.recovery_required)
                  then some "workflow_contains_unreconciled_mutation"
                  else none))
                (sym status) explained,
      ),
    )

-- In a consistent store, the recovery of a stored run, whose history replays to `replayed` and in
-- whose definition each id names one node, keeps the store consistent if it goes through, and leaves
-- the run that it returns stored. In that run, up to the order of the nodes, each node of the
-- definition has the state that its tasks make of its replayed state, or is a compensation with that
-- state skipped; the status is the one that these states give, and the error says that a mutation is
-- not reconciled exactly if the status is `recovery_required`, and is gone otherwise.
pub recover_run-Recovered :
    (clock : Clock) (key : KeyOf) (certified : String → Bool) (tasks : List TaskRecord)
    (s : WorkflowStore) (stored replayed : Run) (d : Definition)
    → IsConsistent s
    → get stored.id s.runs ≡ some stored
    → replay_run s stored.id ≡ ok replayed
    → load_definition s stored ≡ ok d
    → NamesNodes d
    → OnOk
        (λ p.
          (IsConsistent p.1 × (get stored.id p.1.runs ≡ some p.0))
          × Recovered key certified tasks replayed d p.0)
        (recover_run clock key certified tasks s stored)
unfolding recover_run
recover_run-Recovered clock key certified tasks s stored replayed d consistent found history loaded
      named =
    let (restored, closed, emits) =
      recovery_draft-Restored key certified tasks replayed stored d named in
    let draft = recovery_draft key certified tasks replayed d stored in
    rw (history, loaded)
      (OnOk-then _
        (guard (nat_eq replayed.state_version stored.state_version) workflow_event_history_invalid)
        _
        λ _ _.
          OnOk-both _ _ (transition clock s stored draft)
            (transition-Sound clock s stored draft consistent found)
            (OnOk-weaken _ (transition clock s stored draft)
              (transition-AsDrafted clock s stored draft emits)
              λ p drafted.
                AsDrafted-Recovered key certified tasks replayed p.0 d draft p.1 drafted restored
                  closed))
