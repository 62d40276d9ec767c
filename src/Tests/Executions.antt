-- ===== src/Tests/Executions.antt =====
-- Concrete executions of packages/runtime-core/src/task-controller.ts.
use atlas_mcp.Policy.Evidence.{default_evidence}
use atlas_mcp.Prelude.{
  ℕ, zero, suc, ◌≤◌, String, ◌≡◌, ◌≢◌, refl, false, none, some, [], ◌∷◌, Result, ok, err, OnOk,
  arith, get, text_dec,
}
use atlas_mcp.Protocol.Effect.{Effect}
use atlas_mcp.Protocol.Failure.{task_not_executable}
use atlas_mcp.Protocol.Json.{Json, Fields, end}
use atlas_mcp.Protocol.Task.{TaskStatus, TaskRecord}
use atlas_mcp.Policy.Classify.{classify, classify_file}
use atlas_mcp.Policy.Evaluate.{
  default_policy, evaluate, apply_rules, command_allowed, domain_allowed, admit, decide_at,
}
use atlas_mcp.Tasks.Store.{
  empty_tasks, TaskStore, save_task, get_receipt, get_task, get_idempotency_commit,
  get_task_payload,
}
use atlas_mcp.Policy.Grants.{capability_refusal}
use atlas_mcp.Tasks.Plan.{status, plan, with_default_evidence}
use atlas_mcp.Tasks.World.{Setup, World}
use atlas_mcp.Tasks.Begin.{
  Running, begin, running_task, begin_task, is_duplicate, load_request, recheck, check_approval,
}
use atlas_mcp.Tasks.Execute.{execute_with_retries, maximum_attempts, try_once}
use atlas_mcp.Tasks.Planning.{Stored, plan-Stored}
use atlas_mcp.Tasks.Finish.{run}
use atlas_mcp.Tasks.Gated.{Gate, begin-Gate, begin-begin}
use atlas_mcp.Tasks.Retries.{Returns, attempts-bounded, attempts-Returns}
use atlas_mcp.Tasks.Certified.{Attests, run-Attests}
use atlas_mcp.Tasks.Verified.{ProvenEnd, run-Proven}
use atlas_mcp.Tasks.Claims.{ClaimedEnd}
use atlas_mcp.Tasks.Once.{run-ClaimedEnd}
use atlas_mcp.Tasks.Answers.{Answered, run-Answered}
use atlas_mcp.Tests.Policies.{platform, reading}

abbrev setup : Setup
setup = record {
  platform = platform;
  policy = default_policy;
  breaker_options = record { threshold = 3; cooldown_ms = 60000 };
  capabilities = none;
  cipher = record {
    seal_request = λ r id. id;
    open_request = λ sealed id. ok reading;
    seal_result = λ r id. id;
  };
  redaction = record {
    redact_request = λ r. r;
    redact_result = λ r. Json.object r;
    redact_message = λ m. m;
  };
}

-- The first attempt fails, the later ones succeed.
abbrev answer : ℕ → Result String Fields
answer n = elim n [ zero ↦ err "down" | suc m ↦ elim m [ zero ↦ err "down" | suc k ↦ ok end ] ]

abbrev world : World
world = record {
  receipt_id = "r1";
  error_receipt_id = "r2";
  certificate_id = "c";
  approval_id = "a";
  clock = λ m. 10;
  aborted = λ m. false;
  exhausted = false;
  reason = "task_cancelled";
  constraint_message = "UNIQUE constraint failed";
  number_text = λ n. "2";
  adapter = λ op. answer;
  verify = λ ps result. [];
  others = λ m s. s;
  others_breaker = λ b. b;
}

abbrev pub task : TaskRecord
task = record {
  id = "i";
  request = reading;
  status = TaskStatus.planned;
  policy_decision = (evaluate platform default_policy "i" "a" 0 reading).decision;
  idempotency_key = some "k";
  attempt = none;
  approval = none;
  result = none;
  error = none;
  attempts = none;
  receipt_ids = [];
  certificate_id = none;
  created_at = 1;
  updated_at = 1;
}

abbrev store : TaskStore
store = record {
  tasks = ("i", task) ∷ [];
  payloads = ("i", record { request_payload = "sealed"; result_payload = none }) ∷ [];
  receipt_rows = [];
  certificates = [];
  commits = [];
}

abbrev running_now : TaskRecord
running_now = running_task world task (evaluate platform default_policy "i" "a" 10 reading).decision

abbrev running : Running
running = record {
  task = running_now;
  request = reading;
  classified = classify platform reading.operation;
  started_at = 10;
  approval = none;
}

begin-Gate_example : OnOk (Gate setup world store "i" none) (begin setup world store "i" none)
begin-Gate_example = begin-Gate setup world store "i" none

begin-begin_example :
    begin setup world (save_task store running_now) "i" none
    ≡ err (task_not_executable TaskStatus.running)
unfolding begin status get_task get text_dec begin_task is_duplicate get_idempotency_commit
    load_request get_task_payload recheck evaluate default_policy capability_refusal apply_rules
    classify classify_file command_allowed domain_allowed admit decide_at check_approval save_task
begin-begin_example =
    begin-begin setup world store "i" none setup world none (save_task store running_now) running
      refl refl

attempts-bounded_example :
    (1 ≤ 2) × (2 ≤ maximum_attempts Effect.read 2) × (Effect.read ≢ Effect.read → ◌≡◌ {A = ℕ} 2 1)
unfolding execute_with_retries maximum_attempts try_once
attempts-bounded_example =
    attempts-bounded world reading.operation Effect.read 2 "none" task store 2 refl refl

attempts-Returns_example :
    Returns world 2 end
      (execute_with_retries world reading.operation
        (maximum_attempts Effect.read 2)
        1
        "none"
        task
        store)
      task
attempts-Returns_example =
    attempts-Returns world reading.operation end 2 2 "none" task store (omega arith) (omega arith)
      (λ j p q. let one : j ≡ 1 = omega (arith, p, q) in rw (one) (refl, refl, ("down", refl))) refl
      refl

run-Attests_example : Attests (run setup world running [] store)
run-Attests_example = run-Attests setup world running [] store

run-Proven_example : ProvenEnd (run setup world running [] store)
run-Proven_example = run-Proven setup world running [] store

run-ClaimedEnd_example : ClaimedEnd store "k" running_now (run setup world running [] store)
run-ClaimedEnd_example = run-ClaimedEnd setup world running "k" (λ m key s c h. h) [] store refl

run-Answered_example : Answered (run setup world running [] store)
unfolding get_receipt
run-Answered_example = run-Answered setup world running (λ m s h. h) [] store refl

plan-Stored_example :
    OnOk (Stored setup "i") (plan setup "i" "a" 5 reading none (some 1) empty_tasks)
unfolding with_default_evidence default_evidence classify classify_file
plan-Stored_example = plan-Stored setup "i" "a" 5 reading none (some 1) empty_tasks refl
