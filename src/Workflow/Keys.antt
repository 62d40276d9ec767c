-- ===== src/Workflow/Keys.antt =====
-- The idempotency keys of a node's tasks in packages/runtime-core/src/workflow-controller.ts, and the
-- task that recovery takes for a key.
use atlas_mcp.Prelude.{
  ℕ, zero, suc, String, Bool, true, false, not, ◌&&◌, ◌||◌, Option, none, some, List, [], ◌∷◌, ◌++◌,
  ◌==◌, ltb, leb, nat_eq, holds, or_else, filter_of, find_of, sort,
}
use atlas_mcp.Protocol.Task.{TaskRequest, TaskRecord, TaskStatus, TaskStatus-discrete}
use atlas_mcp.Protocol.Workflow.{NodeKind, Node, Definition}

-- What tells the uses of a branch's name apart
pub data Branch : Type 0 where
  operation compensation : Branch
  of_condition : (held : Bool) → (index : ℕ) → Branch
  of_parallel : (branch request : ℕ) → Branch
  of_loop : (index : ℕ) → Branch

-- `TaskIdentity`
pub record TaskIdentity : Type 0 where
  pub workflow_id : String
  pub node_id : String
  pub iteration : ℕ
  pub branch : Branch

-- `sha256({ ...identity, request })`, from outside
abbrev pub KeyOf : Type 0
KeyOf = TaskIdentity → TaskRequest → String

-- `requests.map((request, index) => …)`, numbered from `n` on
unfoldable pub numbered : (ℕ → TaskRequest → String) → ℕ → List TaskRequest → List String
numbered f n [] = []
numbered f n (r ∷ rs) = f n r ∷ numbered f (suc n) rs

unfoldable pub parallel_keys :
    (ℕ → ℕ → TaskRequest → String) → ℕ → List (List TaskRequest) → List String
parallel_keys f n [] = []
parallel_keys f n (b ∷ bs) = numbered (f n) 0 b ++ parallel_keys f (suc n) bs

-- The keys of the iterations from `n` on, as many as `count`
unfoldable pub loop_keys : (ℕ → ℕ → TaskRequest → String) → ℕ → ℕ → List TaskRequest → List String
loop_keys f zero n body = []
loop_keys f (suc count) n body = numbered (f n) 0 body ++ loop_keys f count (suc n) body

abbrev pub is_node : String → Node → Bool
is_node id n = n.id == id

-- The keys of an approval are those of the operation that it is for.
unfoldable pub approval_keys : KeyOf → String → Option Node → List String
approval_keys key workflow_id none = []
approval_keys key workflow_id (some n) = elim n.kind [
  | NodeKind.operation request ↦
      key
        (record {
          workflow_id = workflow_id;
          node_id = n.id;
          iteration = 0;
          branch = Branch.operation;
        })
        request
      ∷ []
  | _ ↦ []
]

-- `key`, inside of `expectedTaskKeys`
unfoldable pub key_at : KeyOf → String → String → ℕ → Branch → TaskRequest → String
key_at key workflow_id node_id iteration branch request =
    key
      (record {
        workflow_id = workflow_id;
        node_id = node_id;
        iteration = iteration;
        branch = branch;
      })
      request

-- `expectedTaskKeys`
unfoldable pub expected_task_keys : KeyOf → String → String → NodeKind → Definition → List String
expected_task_keys key w id (NodeKind.operation request) d =
    key_at key w id 0 Branch.operation request ∷ []
expected_task_keys key w id (NodeKind.approval target) d =
    approval_keys key w (find_of (is_node target) d.nodes)
expected_task_keys key w id (NodeKind.condition source predicate when_true when_false) d =
    numbered (λ n. key_at key w id 0 (of_condition true n)) 0 when_true
    ++ numbered (λ n. key_at key w id 0 (of_condition false n)) 0 when_false
expected_task_keys key w id (NodeKind.parallel branches) d =
    parallel_keys (λ b n. key_at key w id 0 (of_parallel b n)) 0 branches
expected_task_keys key w id (NodeKind.bounded_loop body limit until) d =
    loop_keys (λ i n. key_at key w id i (of_loop n)) limit 0 body
expected_task_keys key w id (NodeKind.compensation target request) d =
    key_at key w id 0 Branch.compensation request ∷ []
expected_task_keys key w id _ d = []

abbrev pub succeeded : TaskRecord → Bool
succeeded t = holds (TaskStatus-discrete t.status TaskStatus.verified_success)

-- The order of `preferredTask`: successes first, then later attempts, then later updates
unfoldable pub preferred_first : TaskRecord → TaskRecord → Bool
preferred_first a b =
    (succeeded a && not (succeeded b))
    || ((succeeded a || not (succeeded b))
        && (ltb (or_else b.attempt 1) (or_else a.attempt 1)
            || (nat_eq (or_else a.attempt 1) (or_else b.attempt 1)
                && leb b.updated_at a.updated_at)))

unfoldable pub has_key : String → TaskRecord → Bool
has_key key t = elim t.idempotency_key [ none ↦ false | some k ↦ k == key ]

abbrev pub first_of : List TaskRecord → Option TaskRecord
first_of [] = none
first_of (t ∷ ts) = some t

-- `preferredTask`
unfoldable pub preferred_task : List TaskRecord → String → Option TaskRecord
preferred_task tasks key = first_of (sort preferred_first (filter_of (has_key key) tasks))

-- `keys.map(key => preferredTask(tasks, key)).filter(task => task !== undefined)`
unfoldable pub preferred_tasks : List TaskRecord → List String → List TaskRecord
preferred_tasks tasks [] = []
preferred_tasks tasks (k ∷ ks) =
    let rest = preferred_tasks tasks ks in
    elim (preferred_task tasks k) [ none ↦ rest | some t ↦ t ∷ rest ]
