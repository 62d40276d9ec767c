-- ===== src/Tasks/Retries.antt =====
-- The attempts of `executeWithRetries` of packages/runtime-core/src/task-controller.ts.
use atlas_mcp.Prelude.{
  ℕ, zero, suc, ◌+◌, ◌≤◌, ◌<◌, String, ◌≡◌, ◌≢◌, ◌⊎◌, inl, inr, refl, subst, ◌∙◌, ◌-◌, Bool, true,
  false, Option, none, some, Result, ok, err, arith,
}
use atlas_mcp.Protocol.Effect.{Effect}
use atlas_mcp.Protocol.Json.{Fields}
use atlas_mcp.Protocol.Operation.{Operation}
use atlas_mcp.Protocol.Task.{TaskRecord}
use atlas_mcp.Tasks.Store.{TaskStore}
use atlas_mcp.Tasks.World.{World, attempt, answered}
use atlas_mcp.Tasks.Execute.{
  Tried, returned, threw, attempted_task, attempted_store, try_once, with_execution,
  execute_with_retries, maximum_attempts,
}

-- The task as the loop leaves it.
abbrev pub tried_task : Tried → TaskRecord
tried_task (returned result t s) = t
tried_task (threw message t s) = t

-- The attempts that the task counts are `before`, or lie from `a` up to and without `bound`.
abbrev pub Counts : Option ℕ → ℕ → ℕ → Option ℕ → Type 0
Counts before a bound now = (now ≡ before) ⊎ ((k : ℕ) × (now ≡ some k) × (a ≤ k) × (k < bound))

Counts-next :
    (before now : Option ℕ) (a left : ℕ)
    → Counts (some a) (a + 1) (a + 1 + left) now
    → Counts before a (a + suc left) now
Counts-next before now a left h = ground arith

try_once-Counts :
    (w : World) (left a : ℕ) (t : TaskRecord) (s : TaskStore) (aborted : Bool)
    (answer : Result String Fields) (give_up : Bool) (next : String → Tried)
    → ((m : String) → Counts (some a) (a + 1) (a + 1 + left) (tried_task (next m)).attempts)
    → Counts t.attempts a
        (a + suc left)
        (tried_task (try_once w a t s aborted answer give_up next)).attempts
unfolding try_once
try_once-Counts w left a t s true answer give_up next h = inl refl
try_once-Counts w left a t s false (ok result) give_up next h =
    inr (a, refl, ground arith, ground arith)
try_once-Counts w left a t s false (err m) true next h = inr (a, refl, ground arith, ground arith)
try_once-Counts w left a t s false (err m) false next h = Counts-next t.attempts _ a left (h m)

attempts_lem :
    (w : World) (op : Operation) (left a : ℕ) (last : String) (t : TaskRecord) (s : TaskStore)
    → Counts t.attempts a
        (a + left)
        (tried_task (execute_with_retries w op left a last t s)).attempts
unfolding execute_with_retries
attempts_lem w op zero a last t s = inl refl
attempts_lem w op (suc left) a last t s =
    try_once-Counts w left a t s _ _ _ _
      λ m. attempts_lem w op left (a + 1) m (attempted_task w a t) (attempted_store w a t s)

-- A task whose adapter is called counts at least one attempt and at most the attempts that its effect
-- allows: one for a mutation, and the retries of its budget and one more for a read.
pub attempts-bounded :
    (w : World) (op : Operation) (effect : Effect) (max_retries : ℕ) (last : String)
    (t : TaskRecord) (s : TaskStore) (k : ℕ)
    → t.attempts ≡ none
    → (tried_task
        (execute_with_retries w op (maximum_attempts effect max_retries) 1 last t s)).attempts
      ≡ some k
    → (1 ≤ k) × (k ≤ maximum_attempts effect max_retries) × (effect ≢ Effect.read → k ≡ 1)
unfolding maximum_attempts
attempts-bounded w op Effect.read n last t s k h e =
    ground (arith, attempts_lem w op (n + 1) 1 last t s)
attempts-bounded w op Effect.mutate n last t s k h e =
    ground (arith, attempts_lem w op 1 1 last t s)
attempts-bounded w op Effect.destructive n last t s k h e =
    ground (arith, attempts_lem w op 1 1 last t s)

-- Every attempt from `a` on and before `k` fails, and none finds the signal aborted.
abbrev pub FailsUntil : World → Operation → ℕ → ℕ → Type 0
FailsUntil w op a k =
    (j : ℕ)
    → a ≤ j
    → j < k
    → (w.aborted (attempt j) ≡ false)
      × (w.aborted (answered j) ≡ false)
      × ((m : String) × (w.adapter op j ≡ err m))

-- The loop ends with the result of attempt `k`.
abbrev pub Returns : World → ℕ → Fields → Tried → TaskRecord → Type 0
Returns w k result tried t =
    (after : TaskStore) × (tried
      ≡ returned (with_execution w.number_text k result) (attempted_task w k t) after)

try_once-ok :
    (w : World) (op : Operation) (k : ℕ) (t : TaskRecord) (s : TaskStore) (result : Fields)
    (give_up : Bool) (next : String → Tried)
    → w.aborted (attempt k) ≡ false
    → w.adapter op k ≡ ok result
    → Returns w k result (try_once w k t s (w.aborted (attempt k)) (w.adapter op k) give_up next) t
unfolding try_once
try_once-ok w op k t s result give_up next b e = rw (b, e) (attempted_store w k t s, refl)

try_once-err :
    (w : World) (op : Operation) (k : ℕ) (t : TaskRecord) (s : TaskStore) (m : String)
    (give_up : Bool) (next : String → Tried)
    → w.aborted (attempt k) ≡ false
    → w.adapter op k ≡ err m
    → give_up ≡ false
    → try_once w k t s (w.aborted (attempt k)) (w.adapter op k) give_up next ≡ next m
unfolding try_once
try_once-err w op k t s m give_up next b e g = rw (b, e, g) refl

returns_lem :
    (w : World) (op : Operation) (result : Fields) (n left a k : ℕ) (last : String) (t : TaskRecord)
    (s : TaskStore)
    → k ≡ a + n
    → FailsUntil w op a k
    → n < left
    → w.aborted (attempt k) ≡ false
    → w.adapter op k ≡ ok result
    → Returns w k result (execute_with_retries w op left a last t s) t
unfolding execute_with_retries
returns_lem w op result n zero a k last t s eq h l b e = ground (arith, l)
returns_lem w op result zero (suc left) a k last t s eq h l b e =
    let same : k ≡ a = omega (arith, eq) in
    subst (λ x. Returns w k result (execute_with_retries w op (suc left) x last t s) t) same
      (try_once-ok w op k t s result _ _ b e)
returns_lem w op result (suc n) (suc left) a k last t s eq h l b e =
    let (before, after, (m, failed)) = h a (omega arith) (omega (arith, eq)) in
    let rest =
      returns_lem w op result n left (a + 1) k m (attempted_task w a t) (attempted_store w a t s)
        (omega (arith, eq)) (λ j p. h j (omega (arith, p))) (omega (arith, l)) b e in
    (rest.0, try_once-err w op a t s m _ _ before failed (ground (arith, after)) ∙ rest.1)

-- A read whose attempts before attempt `k` fail, with attempt `k` among those that its budget allows,
-- returns what the adapter answers to attempt `k`, with the number of attempts.
pub attempts-Returns :
    (w : World) (op : Operation) (result : Fields) (max_retries k : ℕ) (last : String)
    (t : TaskRecord) (s : TaskStore)
    → 1 ≤ k
    → k ≤ max_retries + 1
    → FailsUntil w op 1 k
    → w.aborted (attempt k) ≡ false
    → w.adapter op k ≡ ok result
    → Returns w k result
        (execute_with_retries w op (maximum_attempts Effect.read max_retries) 1 last t s)
        t
unfolding maximum_attempts
attempts-Returns w op result n k last t s p q h b e =
    returns_lem w op result (k - 1) (n + 1) 1 k last t s (omega (arith, p)) h (omega (arith, q)) b e
