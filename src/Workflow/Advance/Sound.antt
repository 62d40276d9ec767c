-- ===== src/Workflow/Advance/Sound.antt =====
-- What an advance of packages/runtime-core/src/workflow-controller.ts stores, when other calls change
-- the store while its tasks run.
use atlas_mcp.Prelude.{
  String, ◌≡◌, refl, sym, subst, Bool, true, false, some, List, [], ◌∷◌, get, nat_eq, ◌==◌, ◌&&◌,
  Result, ok, err, OnOk, OnOk-at, OnOk-if, ◌++◌, some_of, handle-cases, require-eq-ok,
  if◌then◌else◌,
}
use atlas_mcp.Protocol.Effect.{ApprovalResponse}
use atlas_mcp.Protocol.Failure.{Failure, workflow_not_found, constraint_failed}
use atlas_mcp.Protocol.Workflow.{Run, Definition, Snapshot}
use atlas_mcp.Store.Workflows.{WorkflowStore, save_snapshot, get_run}
use atlas_mcp.Workflow.Transition.{Clock, Draft, status, transition}
use atlas_mcp.Workflow.Control.{is_over, is_halted}
use atlas_mcp.Workflow.Consistency.{IsConsistent}
use atlas_mcp.Workflow.Graph.{Graph}
use atlas_mcp.Workflow.Advance.Fresh.{Follows, transition-Follows}
use atlas_mcp.Workflow.Advance.{TaskPort}
use atlas_mcp.Workflow.Advance.Node.{WorkflowInput}
use atlas_mcp.Workflow.Advance.Once.{NodeResult, node_results, advance_draft}
use atlas_mcp.Workflow.Advance.Leased.{
  AdvanceResult, Stored, checkpoint_draft, checkpoint_snapshot, store_snapshot, save_checkpoint,
  checkpointed, commit_results, answer_advance, prepare_advance, certified_in, after_results,
  run_nodes, advance_run, advance_once, some_checkpoint,
}

with_snapshots :
    (s : WorkflowStore) (more : List Snapshot)
    → IsConsistent s
    → IsConsistent (record s { snapshots = more })
with_snapshots s more consistent = record {
  named = consistent.named;
  rebuilt = consistent.rebuilt;
  orphans = consistent.orphans;
}

save_snapshot-OnOk :
    (s : WorkflowStore) (snapshot : Snapshot)
    → IsConsistent s
    → OnOk IsConsistent (save_snapshot s snapshot)
unfolding save_snapshot
save_snapshot-OnOk s snapshot consistent =
    OnOk-if IsConsistent
      (some_of (λ x. (x.workflow_id == snapshot.workflow_id) && nat_eq x.sequence snapshot.sequence)
        s.snapshots)
      (err constraint_failed) (ok (record s { snapshots = s.snapshots ++ (snapshot ∷ []) }))
      (λ _. tt) (λ _. with_snapshots s (s.snapshots ++ (snapshot ∷ [])) consistent)

save_snapshot-IsConsistent :
    (s s' : WorkflowStore) (snapshot : Snapshot)
    → save_snapshot s snapshot ≡ ok s'
    → IsConsistent s
    → IsConsistent s'
save_snapshot-IsConsistent s s' snapshot saved consistent =
    OnOk-at IsConsistent (save_snapshot s snapshot) s' (save_snapshot-OnOk s snapshot consistent)
      saved

-- The store that a call left is consistent.
abbrev Leaves : {A : Type 0} → Stored A → Type 0
Leaves result = IsConsistent result.1

store_snapshot-Leaves : (p : Run × WorkflowStore) → IsConsistent p.1 → Leaves (store_snapshot p)
unfolding store_snapshot
store_snapshot-Leaves (run, s) consistent =
    handle-cases Leaves (save_snapshot s (checkpoint_snapshot run)) (λ e. (err e, s))
      (λ s'. (ok run, s')) (λ e thrown. consistent)
      (λ s' saved. save_snapshot-IsConsistent s s' (checkpoint_snapshot run) saved consistent)

checkpointed-Leaves :
    (clock : Clock) (saves : Bool) (p : Run × WorkflowStore)
    → Follows p.1 p.0
    → Leaves (checkpointed clock saves p)
unfolding checkpointed save_checkpoint
checkpointed-Leaves clock true (run, s) follows =
    handle-cases Leaves (transition clock s run (checkpoint_draft run)) (λ e. (err e, s))
      store_snapshot (λ e thrown. follows.consistent)
      (λ p passed.
        store_snapshot-Leaves p
          (transition-Follows clock s run (checkpoint_draft run) p follows passed).consistent)
checkpointed-Leaves clock false (run, s) follows = follows.consistent

commit_results-Leaves :
    (clock : Clock) (s : WorkflowStore) (current : Run) (d : Draft) (saves : Bool)
    → Follows s current
    → Leaves (commit_results clock s current d saves)
unfolding commit_results
commit_results-Leaves clock s current d saves follows =
    handle-cases Leaves (transition clock s current d) (λ e. (err e, s)) (checkpointed clock saves)
      (λ e thrown. follows.consistent)
      (λ p passed.
        checkpointed-Leaves clock saves p (transition-Follows clock s current d p follows passed))

answer_advance-store :
    (id : String) (current : Run) (results : List NodeResult) (done : Stored Run)
    → (answer_advance id current results done).1 ≡ done.1
unfolding answer_advance
answer_advance-store id current results (err e, s) = refl
answer_advance-store id current results (ok run, s) = refl

if-cases : {A : Type 0} (Q : A → Type 0) (b : Bool) (x y : A) → Q x → Q y → Q (if b then x else y)
if-cases Q true x y left right = left
if-cases Q false x y left right = right

module _ {T : Type 0} (port : TaskPort T) (clock : Clock) (others : WorkflowStore → WorkflowStore)
    (approvals : List ApprovalResponse) (inputs : List WorkflowInput) (id : String) where
  abbrev LeavesAfter : Stored AdvanceResult × T → Type 0
  LeavesAfter done = IsConsistent done.0.1

  after_results-Leaves :
      (s : WorkflowStore) (current : Run) (d : Definition)
      (results : Result Failure (List NodeResult) × T)
      → Follows (others s) current
      → LeavesAfter (after_results port clock others approvals inputs id current d s results)
  unfolding after_results
  after_results-Leaves s current d (err e, t) follows = follows.consistent
  after_results-Leaves s current d (ok results, t) follows =
      let draft =
        advance_draft (certified_in port clock others approvals inputs id t) d results current in
      let saves = some_checkpoint results in
      subst IsConsistent
        (sym (
          answer_advance-store id current results
            (commit_results clock (others s) current draft saves)))
        (commit_results-Leaves clock (others s) current draft saves follows)

  run_nodes-Leaves :
      (s : WorkflowStore) (current : Run) (t : T) (prepared : Definition × Graph × List String)
      → IsConsistent s
      → Follows (others s) current
      → LeavesAfter (run_nodes port clock others approvals inputs id s current t prepared)
  unfolding run_nodes
  run_nodes-Leaves s current t (d, graph, []) consistent follows = consistent
  run_nodes-Leaves s current t (d, graph, n ∷ ns) consistent follows =
      after_results-Leaves s current d
        (node_results port current approvals d graph inputs (n ∷ ns) t) follows

  advance_run-Leaves :
      (s : WorkflowStore) (current : Run) (t : T)
      → IsConsistent s
      → Follows (others s) current
      → LeavesAfter (advance_run port clock others approvals inputs id s t current)
  unfolding advance_run
  advance_run-Leaves s current t consistent follows =
      if-cases LeavesAfter (is_over current.status) _ _ consistent (
        if-cases LeavesAfter (is_halted current.status) _ _ consistent (
          handle-cases LeavesAfter (prepare_advance s current) (λ e. ((err e, s), t))
            (run_nodes port clock others approvals inputs id s current t) (λ e thrown. consistent)
            (λ prepared passed. run_nodes-Leaves s current t prepared consistent follows)))

  -- An advance leaves a consistent store, whether it returns or throws, if the store was consistent
  -- and other calls, while the tasks run, leave it so and do not replace the run under its version.
  pub advance_once-IsConsistent :
      (s : WorkflowStore) (t : T)
      → IsConsistent s
      → ((current : Run) → get id s.runs ≡ some current → Follows (others s) current)
      → IsConsistent (advance_once port clock others approvals inputs id s t).0.1
  unfolding advance_once status get_run
  advance_once-IsConsistent s t consistent follows =
      handle-cases LeavesAfter (status s id) (λ e. ((err e, s), t))
        (advance_run port clock others approvals inputs id s t) (λ e thrown. consistent)
        (λ current found.
          advance_run-Leaves s current t consistent
            (follows current (require-eq-ok (get id s.runs) workflow_not_found found)))
