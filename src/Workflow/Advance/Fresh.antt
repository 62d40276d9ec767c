-- ===== src/Workflow/Advance/Fresh.antt =====
-- When a transition of packages/runtime-core/src/workflow-controller.ts goes through although other
-- calls may have changed the store since the run was read.
use atlas_mcp.Prelude.{
  ℕ, String, ◌≡◌, refl, ap, ◌∙◌, subst, Bool, true, false, some, List, get, ◌⊎◌, inl, inr, nat_eq,
  ◌==◌, ◌&&◌, put, Result, ok, OnOk, OnOk-then, OnOk-at, guard, guard-eq-ok, require, require-eq-ok,
  arith, if◌then◌else◌,
}
use atlas_mcp.Protocol.Failure.{
  Failure, projection_id_mismatch, projection_identity_mismatch, projection_event_mismatch,
  workflow_state_conflict, workflow_not_found,
}
use atlas_mcp.Protocol.Workflow.{Run, Event}
use atlas_mcp.Events.Reduce.{parse_run}
use atlas_mcp.Store.Workflows.{
  WorkflowStore, transition_workflow, assert_events, insert_events, is_empty,
}
use atlas_mcp.Workflow.Transition.{
  Clock, Draft, transition, store_transition, replay_from, make_events, same_json,
}
use atlas_mcp.Workflow.Consistency.{IsConsistent, Sound, transition-Sound}

-- The run is stored at the version that the caller has read.
abbrev pub Fresh : WorkflowStore → Run → Type 0
Fresh s current =
    (r : Run) × (get current.id s.runs ≡ some r) × (r.state_version ≡ current.state_version)

nat_eq-eq : (m n : ℕ) → nat_eq m n ≡ true → m ≡ n
nat_eq-eq m n same = ground arith

transition_workflow-Fresh :
    (s : WorkflowStore) (current run : Run) (events : List Event)
    → OnOk
        (λ _. Fresh s current)
        (transition_workflow s current.id current.state_version run events)
unfolding transition_workflow
transition_workflow-Fresh s current run events =
    let found_run : WorkflowStore → Type 0 = λ _. Fresh s current in
    OnOk-then found_run (parse_run run) _ λ projection parsed.
      OnOk-then found_run
        (assert_events current.id projection.trace_id current.state_version projection.state_version
          events)
        _
        λ _ asserted.
          OnOk-then found_run (guard (projection.id == current.id) projection_id_mismatch) _
            λ _ named.
              OnOk-then found_run (require (get current.id s.runs) workflow_not_found) _ λ r found.
                OnOk-then found_run
                  (guard (nat_eq r.state_version current.state_version) workflow_state_conflict) _
                  λ _ same.
                    OnOk-then found_run
                      (guard
                        ((projection.definition_id == r.definition_id)
                          && nat_eq projection.definition_version r.definition_version
                          && (projection.trace_id == r.trace_id))
                        projection_identity_mismatch)
                      _
                      λ _ identity.
                        OnOk-then found_run (insert_events s.events events)
                          (λ table.
                            ok (record s {
                              runs = put current.id projection s.runs;
                              events = table;
                            }))
                          λ table inserted. (
                            r,
                            require-eq-ok (get current.id s.runs) workflow_not_found found,
                            nat_eq-eq r.state_version current.state_version (
                                guard-eq-ok (nat_eq r.state_version current.state_version)
                                  workflow_state_conflict same),
                          )

store_transition-Fresh :
    (clock : Clock) (s : WorkflowStore) (current : Run) (d : Draft)
    → OnOk (λ _. Fresh s current) (store_transition clock s current d)
unfolding store_transition
store_transition-Fresh clock s current d =
    let found_run : Run × WorkflowStore → Type 0 = λ _. Fresh s current in
    let events = make_events clock current current.state_version d.emitted in
    OnOk-then found_run (parse_run _) _ λ expected parsed.
      OnOk-then found_run (replay_from current events) _ λ rebuilt replayed.
        OnOk-then found_run (guard (same_json rebuilt expected) projection_event_mismatch) _
          λ _ same.
            OnOk-then found_run
              (transition_workflow s current.id current.state_version rebuilt events)
              (λ s'. ok (rebuilt, s'))
              λ s' stored.
                OnOk-at (λ _. Fresh s current)
                  (transition_workflow s current.id current.state_version rebuilt events) s'
                  (transition_workflow-Fresh s current rebuilt events) stored

same_result :
    (x p : Run × WorkflowStore)
    → ◌≡◌ {A = Result Failure (Run × WorkflowStore)} (ok x) (ok p)
    → x ≡ p
same_result x p e = cc

chosen-Fresh :
    (clock : Clock) (s : WorkflowStore) (current : Run) (d : Draft) (p : Run × WorkflowStore)
    (nothing : Bool)
    → (if nothing then ok (current, s) else store_transition clock s current d) ≡ ok p
    → ((nothing ≡ true) × ((current, s) ≡ p)) ⊎ Fresh s current
chosen-Fresh clock s current d p true passed = inl (refl, same_result (current, s) p passed)
chosen-Fresh clock s current d p false passed = inr (
    OnOk-at (λ _. Fresh s current) (store_transition clock s current d) p
      (store_transition-Fresh clock s current d) passed)

-- A transition that went through has found the run at its version, or emitted nothing.
pub transition-Fresh :
    (clock : Clock) (s : WorkflowStore) (current : Run) (d : Draft) (p : Run × WorkflowStore)
    → transition clock s current d ≡ ok p
    → ((is_empty d.emitted ≡ true) × ((current, s) ≡ p)) ⊎ Fresh s current
unfolding transition
transition-Fresh clock s current d p passed =
    chosen-Fresh clock s current d p (is_empty d.emitted) passed

-- The store is consistent, and has the run that the caller has read, if it has it at that version.
pub record Follows (s : WorkflowStore) (current : Run) : Type 0 where
  pub consistent : IsConsistent s
  pub versions :
      (r : Run)
      → get current.id s.runs ≡ some r
      → r.state_version ≡ current.state_version
      → r ≡ current

stored_once :
    (s : WorkflowStore) (id other : String) (run r : Run)
    → other ≡ id
    → get id s.runs ≡ some run
    → get other s.runs ≡ some r
    → r ≡ run
stored_once s id other run r same stored found = cc

pub Follows-stored :
    (s : WorkflowStore) (current run : Run)
    → IsConsistent s
    → get current.id s.runs ≡ some run
    → Follows s run
Follows-stored s current run consistent stored =
    let named = consistent.named current.id run stored in
    record {
      consistent = consistent;
      versions = λ r found same. stored_once s current.id run.id run r named stored found;
    }

pub transition-Follows :
    (clock : Clock) (s : WorkflowStore) (current : Run) (d : Draft) (p : Run × WorkflowStore)
    → Follows s current
    → transition clock s current d ≡ ok p
    → Follows p.1 p.0
transition-Follows clock s current d p follows passed =
    elim (transition-Fresh clock s current d p passed) [
      | inl (_, same) ↦ subst (λ q. Follows q.1 q.0) same follows
      | inr (r, found, version) ↦
          let stored = found ∙ ap some (follows.versions r found version) in
          let sound =
            OnOk-at (Sound clock s current d) (transition clock s current d) p
              (transition-Sound clock s current d follows.consistent stored) passed in
          Follows-stored p.1 current p.0 sound.0 sound.1
    ]
