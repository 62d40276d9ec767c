-- ===== src/Workflow/Advance/Yields.antt =====
-- An advance of packages/runtime-core/src/workflow-controller.ts when others change its run, halt it,
-- or hold its lease.
use atlas_mcp.Prelude.{
  String, ◌≡◌, ◌≢◌, refl, subst, Bool, true, false, none, some, List, [], ◌∷◌, get, get-put_self,
  ◌⊎◌, inl, inr, Result, ok, err, handle, handle-cases, if◌then◌else◌,
}
use mathlib.Core.Bool.{false≢true}
use atlas_mcp.Protocol.Effect.{ApprovalResponse}
use atlas_mcp.Protocol.Failure.{Failure, workflow_halted}
use atlas_mcp.Protocol.Workflow.{Run, Definition}
use atlas_mcp.Store.Workflows.{WorkflowStore, get_run}
use atlas_mcp.Workflow.Transition.{Clock, Draft, status, transition}
use atlas_mcp.Workflow.Control.{
  Halt, pausing, suspending, halt, halt_status, halt_event, is_over, is_halted, is_terminal,
}
use atlas_mcp.Workflow.Consistency.{IsConsistent}
use atlas_mcp.Workflow.Halting.{moved, moved_store, halt_ok}
use atlas_mcp.Workflow.Graph.{Graph}
use atlas_mcp.Workflow.Advance.Fresh.{Fresh, transition-Fresh}
use atlas_mcp.Workflow.Advance.{TaskPort}
use atlas_mcp.Workflow.Advance.Node.{WorkflowInput}
use atlas_mcp.Workflow.Advance.Once.{NodeResult, node_results, advance_draft}
use atlas_mcp.Workflow.Advance.Leased.{
  AdvanceResult, Stored, checkpoint_draft, store_snapshot, save_checkpoint, checkpointed,
  commit_results, answer_advance, prepare_advance, certified_in, after_results, run_nodes,
  advance_run, advance_once, some_checkpoint,
}

-- The run is not stored at the version that was read.
abbrev pub IsStale : WorkflowStore → Run → Type 0
IsStale s current =
    (r : Run) → get current.id s.runs ≡ some r → r.state_version ≢ current.state_version

stale-Fresh : (s : WorkflowStore) (current : Run) → IsStale s current → Fresh s current → ⊥
stale-Fresh s current stale (r, found, version) = stale r found version

-- The store of the result is `s`.
abbrev Keeping : {A : Type 0} → WorkflowStore → Stored A → Type 0
Keeping s result = result.1 ≡ s

checkpointed-Keeping :
    (clock : Clock) (s : WorkflowStore) (run : Run) (saves : Bool)
    → IsStale s run
    → Keeping s (checkpointed clock saves (run, s))
unfolding checkpointed save_checkpoint checkpoint_draft
checkpointed-Keeping clock s run false stale = refl
checkpointed-Keeping clock s run true stale =
    handle-cases (Keeping s) (transition clock s run (checkpoint_draft run)) (λ e. (err e, s))
      store_snapshot (λ e thrown. refl)
      (λ p passed. elim (transition-Fresh clock s run (checkpoint_draft run) p passed) [
        | inl (nothing, same) ↦ elim (false≢true nothing) [ ]
        | inr fresh ↦ elim (stale-Fresh s run stale fresh) [ ]
      ])

commit_results-Keeping :
    (clock : Clock) (s : WorkflowStore) (current : Run) (d : Draft) (saves : Bool)
    → IsStale s current
    → Keeping s (commit_results clock s current d saves)
unfolding commit_results
commit_results-Keeping clock s current d saves stale =
    handle-cases (Keeping s) (transition clock s current d) (λ e. (err e, s))
      (checkpointed clock saves) (λ e thrown. refl)
      (λ p passed. elim (transition-Fresh clock s current d p passed) [
        | inl (nothing, same) ↦
            subst (λ q. Keeping s (checkpointed clock saves q)) same
              (checkpointed-Keeping clock s current saves stale)
        | inr fresh ↦ elim (stale-Fresh s current stale fresh) [ ]
      ])

answer_advance-Keeping :
    (id : String) (current : Run) (results : List NodeResult) (s : WorkflowStore)
    (done : Stored Run)
    → Keeping s done
    → Keeping s (answer_advance id current results done)
unfolding answer_advance
answer_advance-Keeping id current results s (err e, x) same = same
answer_advance-Keeping id current results s (ok run, x) same = same

either : {A : Type 0} (Q : A → Type 0) (b : Bool) (x y : A) → Q x → Q y → Q (if b then x else y)
either Q true x y left right = left
either Q false x y left right = right

module _ {T : Type 0} (port : TaskPort T) (clock : Clock) (others : WorkflowStore → WorkflowStore)
    (approvals : List ApprovalResponse) (inputs : List WorkflowInput) where
  -- The store of the result is the one that was there, or the one that the other calls have left.
  abbrev pub Yields : WorkflowStore → Stored AdvanceResult × T → Type 0
  Yields s done = (done.0.1 ≡ s) ⊎ (done.0.1 ≡ others s)

  after_results-Yields :
      (id : String) (s : WorkflowStore) (current : Run) (d : Definition)
      (results : Result Failure (List NodeResult) × T)
      → IsStale (others s) current
      → Yields s (after_results port clock others approvals inputs id current d s results)
  unfolding after_results
  after_results-Yields id s current d (err e, t) stale = inr refl
  after_results-Yields id s current d (ok results, t) stale =
      let draft =
        advance_draft (certified_in port clock others approvals inputs id t) d results current in
      let saves = some_checkpoint results in
      inr (
        answer_advance-Keeping id current results (others s)
          (commit_results clock (others s) current draft saves)
          (commit_results-Keeping clock (others s) current draft saves stale))

  run_nodes-Yields :
      (id : String) (s : WorkflowStore) (current : Run) (t : T)
      (prepared : Definition × Graph × List String)
      → IsStale (others s) current
      → Yields s (run_nodes port clock others approvals inputs id s current t prepared)
  unfolding run_nodes
  run_nodes-Yields id s current t (d, graph, []) stale = inl refl
  run_nodes-Yields id s current t (d, graph, n ∷ ns) stale =
      after_results-Yields id s current d
        (node_results port current approvals d graph inputs (n ∷ ns) t) stale

  advance_run-Yields :
      (id : String) (s : WorkflowStore) (current : Run) (t : T)
      → IsStale (others s) current
      → Yields s (advance_run port clock others approvals inputs id s t current)
  unfolding advance_run
  advance_run-Yields id s current t stale =
      either (Yields s) (is_over current.status) _ _ (inl refl) (
        either (Yields s) (is_halted current.status) _ _ (inl refl) (
          handle-cases (Yields s) (prepare_advance s current) (λ e. ((err e, s), t))
            (run_nodes port clock others approvals inputs id s current t) (λ e thrown. inl refl)
            (λ prepared passed. run_nodes-Yields id s current t prepared stale)))

  -- If the run that an advance has read is stored at another version, or not at all, when the tasks
  -- have run, then the advance stores nothing: the store is as it was, or as the other calls have
  -- left it.
  pub advance_once-Yields :
      (id : String) (s : WorkflowStore) (t : T) (current : Run)
      → get id s.runs ≡ some current
      → IsStale (others s) current
      → Yields s (advance_once port clock others approvals inputs id s t)
  unfolding advance_once status get_run handle
  advance_once-Yields id s t current found stale =
      rw found (advance_run-Yields id s current t stale)

  halted_run :
      (s : WorkflowStore) (r : Run) (h : Halt) (t : T)
      → advance_run port clock others approvals inputs r.id s t (moved clock r (halt_status h))
        ≡ ((err (workflow_halted (halt_status h)), s), t)
  unfolding advance_run
  halted_run s r pausing t = refl
  halted_run s r suspending t = refl

  -- In a consistent store, a run that is not halted so already, has not ended and carries no error is
  -- halted, and an advance of it is then refused with `workflow_halted`, runs no task and stores
  -- nothing.
  pub advance_once-halt :
      (s : WorkflowStore) (r : Run) (h : Halt) (t : T)
      → IsConsistent s
      → get r.id s.runs ≡ some r
      → r.status ≢ halt_status h
      → is_terminal r.status ≡ false
      → r.error ≡ none
      → (p : Run × WorkflowStore) × (halt clock s r.id h ≡ ok p)
        × (advance_once port clock others approvals inputs r.id p.1 t
            ≡ ((err (workflow_halted (halt_status h)), p.1), t))
  unfolding advance_once status get_run handle
  advance_once-halt s r h t consistent found other live clean = (
    (moved clock r (halt_status h), moved_store clock s r (halt_event h) (halt_status h)),
    halt_ok clock s r h consistent found other live clean,
    rw (get-put_self r.id (moved clock r (halt_status h)) s.runs)
        (halted_run (moved_store clock s r (halt_event h) (halt_status h)) r h t),
  )
