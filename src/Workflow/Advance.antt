-- ===== src/Workflow/Advance.antt =====
-- How a node runs its tasks, in packages/runtime-core/src/workflow-controller.ts: `runTask`,
-- `runSequential`, `runParallel` and `runLoop`. The task controller is an interface. The calls that
-- the source starts together are made one after the other, which is one of their orders.
pub mod Node
pub mod Once
pub mod Leased
pub mod Fresh
pub mod Sound
pub mod Yields
pub mod Exclusive
use atlas_mcp.Prelude.{
  ℕ, zero, suc, ◌+◌, ◌-◌, ◌*◌, String, Bool, true, false, not, ◌&&◌, Option, none, some, List, [],
  ◌∷◌, ◌++◌, ◌==◌, holds, if◌then◌else◌, or_else, length, find_of, Result, map,
}
use atlas_mcp.Protocol.Effect.{ApprovalChallenge, ApprovalResponse, PolicyOutcome}
use atlas_mcp.Protocol.Failure.{Failure}
use atlas_mcp.Protocol.Task.{TaskRequest, TaskRecord, TaskStatus, EvidencePredicate}
use atlas_mcp.Protocol.Workflow.{NodeState, NodeStatus}
use atlas_mcp.Tasks.Receipts.{CertificateResult}
use atlas_mcp.Workflow.Actions.{Action, pure, throw, ◌>>=◌, for_each}
use atlas_mcp.Workflow.Nodes.{
  bare, with_approval, node_state_for_task, aggregate_node_state, has_status,
}
use atlas_mcp.Workflow.Keys.{Branch, of_condition, of_parallel, of_loop, TaskIdentity, KeyOf}

-- The task controller and what else a workflow calls: `plan`, `status`, `execute`,
-- `verifyPersisted`, `verifyStandalone`, `receipts` and `preflight`, the key of a task, and the
-- `redactStructuredValue` and `slice` of texts.
pub record TaskPort (T : Type 0) : Type 0 where
  pub plan_task : TaskRequest → (key : String) → Action T TaskRecord
  pub task_status : String → Action T TaskRecord
  pub execute_task : String → Option ApprovalResponse → Action T TaskRecord
  pub verify_persisted : String → EvidencePredicate → Action T Bool
  pub verify_standalone : List EvidencePredicate → Action T Bool
  pub certificate : String → T → Option CertificateResult
  pub preflight_task : TaskRequest → Result Failure PolicyOutcome
  pub key_of : KeyOf
  pub redact_text : String → String
  pub slice_text : ℕ → String → String

-- `NodeAdvance`
pub record NodeAdvance : Type 0 where
  pub state : NodeState
  pub tasks : List TaskRecord
  pub checkpoint : Bool

abbrev pub advanced : NodeState → List TaskRecord → NodeAdvance
advanced state tasks = record { state = state; tasks = tasks; checkpoint = false }

-- `xs[n]`
unfoldable pub nth : ℕ → List String → Option String
nth n [] = none
nth zero (x ∷ xs) = some x
nth (suc n) (x ∷ xs) = nth n xs

-- `xs[n] = x`, where `n` is at most the length
unfoldable pub set_nth : ℕ → String → List String → List String
set_nth n x [] = x ∷ []
set_nth zero x (y ∷ ys) = x ∷ ys
set_nth (suc n) x (y ∷ ys) = y ∷ set_nth n x ys

-- `state.taskIds[0]!`; `runTask` returns states of one task
unfoldable pub only_task : NodeState → String
only_task s = or_else (nth 0 s.task_ids) ""

-- `item.approvalId === task.approval?.approvalId`
unfoldable pub answers_task : TaskRecord → ApprovalResponse → Bool
answers_task t a = elim t.approval [ none ↦ false | some c ↦ a.approval_id == c.approval_id ]

-- What a node goes on with after one of its tasks
pub data LoopStep : Type 0 where
  stopped : NodeAdvance → LoopStep
  went_on : (task_ids : List String) (tasks : List TaskRecord) → LoopStep

module _ {T : Type 0} (port : TaskPort T) where
  -- `existingTaskId === undefined ? this.tasks.plan(…) : this.tasks.status(…)`
  unfoldable pub find_or_plan : TaskRequest → Option String → TaskIdentity → Action T TaskRecord
  find_or_plan request none identity = port.plan_task request (port.key_of identity request)
  find_or_plan request (some id) identity = port.task_status id

  abbrev pub finish_task : Bool → TaskRecord → NodeAdvance
  finish_task execute_planned t = advanced (node_state_for_task t (not execute_planned)) (t ∷ [])

  unfoldable pub approve_task : Bool → TaskRecord → Option ApprovalResponse → Action T NodeAdvance
  approve_task execute_planned t none =
      pure (advanced (with_approval (t.id ∷ []) t.approval) (t ∷ []))
  approve_task execute_planned t (some a) = do
    done ← port.execute_task t.id (some a)
    pure (finish_task execute_planned done)

  unfoldable pub execute_planned_task : Bool → TaskRecord → Action T NodeAdvance
  execute_planned_task true t = do done ← port.execute_task t.id none; pure (finish_task true done)
  execute_planned_task false t = pure (finish_task false t)

  unfoldable pub advance_task : List ApprovalResponse → Bool → TaskRecord → Action T NodeAdvance
  advance_task approvals execute_planned t = elim t.status [
    | TaskStatus.awaiting_approval ↦
        approve_task execute_planned t (find_of (answers_task t) approvals)
    | TaskStatus.planned ↦ execute_planned_task execute_planned t
    | _ ↦ pure (finish_task execute_planned t)
  ]

  -- `runTask`
  unfoldable pub run_task :
      TaskRequest
      → Option String
      → List ApprovalResponse
      → Bool
      → TaskIdentity
      → Action T NodeAdvance
  run_task request existing approvals execute_planned identity = do
    t ← find_or_plan request existing identity
    advance_task approvals execute_planned t

  module _ (approvals : List ApprovalResponse) (workflow_id node_id : String) where
    abbrev pub identity_at : ℕ → Branch → TaskIdentity
    identity_at iteration branch = record {
      workflow_id = workflow_id;
      node_id = node_id;
      iteration = iteration;
      branch = branch;
    }

    -- A loop over requests whose tasks stand in `ids` from `offset` on. It stops at the first that
    -- is not complete.
    unfoldable pub run_requests :
        (ℕ → TaskIdentity)
        → (offset index : ℕ) → List String
        → List TaskRecord
        → List TaskRequest
        → Action T LoopStep
    run_requests identity offset index ids tasks [] = pure (went_on ids tasks)
    run_requests identity offset index ids tasks (r ∷ rs) = do
      result ← run_task r (nth (offset + index) ids) approvals true (identity index)
      let ids_now = set_nth (offset + index) (only_task result.state) ids
      let tasks_now = tasks ++ result.tasks
      if has_status NodeStatus.verified_complete result.state
          then run_requests identity offset (suc index) ids_now tasks_now rs
          else pure (stopped (advanced (record result.state { task_ids = ids_now }) tasks_now))

    abbrev pub completed : LoopStep → NodeAdvance
    completed (stopped result) = result
    completed (went_on ids tasks) = advanced (bare NodeStatus.verified_complete ids) tasks

    -- `runSequential`, on a branch of a condition
    unfoldable pub run_sequential : Bool → List TaskRequest → NodeState → Action T NodeAdvance
    run_sequential held requests state = do
      step ← run_requests (λ n. identity_at 0 (of_condition held n)) 0 0 state.task_ids [] requests
      pure (completed step)

    unfoldable pub number_requests : ℕ → ℕ → List TaskRequest → List (TaskRequest × Branch)
    number_requests b n [] = []
    number_requests b n (r ∷ rs) = (r, of_parallel b n) ∷ number_requests b (suc n) rs

    -- `branches.flatMap(…)`
    unfoldable pub number_branches : ℕ → List (List TaskRequest) → List (TaskRequest × Branch)
    number_branches b [] = []
    number_branches b (rs ∷ more) = number_requests b 0 rs ++ number_branches (suc b) more

    unfoldable pub run_branches :
        ℕ → NodeState → List (TaskRequest × Branch) → Action T (List NodeAdvance)
    run_branches n state [] = pure []
    run_branches n state ((r, branch) ∷ more) = do
      result ← run_task r (nth n state.task_ids) approvals true (identity_at 0 branch)
      results ← run_branches (suc n) state more
      pure (result ∷ results)

    unfoldable pub tasks_of : List NodeAdvance → List TaskRecord
    tasks_of [] = []
    tasks_of (r ∷ rs) = r.tasks ++ tasks_of rs

    -- `runParallel`
    unfoldable pub run_parallel : List (List TaskRequest) → NodeState → Action T NodeAdvance
    run_parallel branches state = do
      results ← run_branches 0 state (number_branches 0 branches)
      pure (advanced (aggregate_node_state (map (λ r. r.state) results)) (tasks_of results))

    abbrev pub looped : ℕ → NodeAdvance → NodeAdvance
    looped n result = record result { state = record result.state { iterations = some n } }

    -- `node.until !== undefined && (await this.tasks.verifyPersisted(…)).verified`
    unfoldable pub until_holds : Option EvidencePredicate → String → Action T Bool
    until_holds none id = pure false
    until_holds (some p) id = port.verify_persisted id p

    -- The `while` of `runLoop`, which has `left` rounds left
    unfoldable pub run_rounds :
        (left : ℕ)
        → (iterations : ℕ) → List String
        → List TaskRecord
        → List TaskRequest
        → Option EvidencePredicate
        → Action T NodeAdvance
    run_rounds zero iterations ids tasks body until =
        pure (looped iterations (advanced (bare NodeStatus.verified_complete ids) tasks))
    run_rounds (suc left) iterations ids tasks body until = do
      step ←
          run_requests (λ n. identity_at iterations (of_loop n)) (iterations * length body) 0 ids
            tasks body
      elim step [
        | stopped result ↦ pure (looped iterations result)
        | went_on ids_now tasks_now ↦ do
          stop ←
              until_holds until
                (or_else (nth (iterations * length body + (length body - 1)) ids_now) "")
          if stop
              then pure (
                  looped (suc iterations)
                    (advanced (bare NodeStatus.verified_complete ids_now) tasks_now))
              else run_rounds left (suc iterations) ids_now tasks_now body until
      ]

    -- `runLoop`
    unfoldable pub run_loop :
        List TaskRequest → ℕ → Option EvidencePredicate → NodeState → Action T NodeAdvance
    run_loop body limit until state =
        let done = or_else state.iterations 0 in
        run_rounds (limit - done) done state.task_ids [] body until
