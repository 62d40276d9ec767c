-- ===== src/Guards/Retry/Warnings.antt =====
-- How often the guard of packages/runtime-core/src/retry-guard.ts warns.
use Prim.Native.Nat.{max}
use native.Mathlib.Numerals.{add-one}
use atlas_mcp.Prelude.{
  ℕ, zero, suc, ◌+◌, String, ◌≡◌, refl, Bool, true, false, not, ◌&&◌, ◌==◌, List, [], ◌∷◌, get,
  get-put_self, leb, nat_eq, or_else, includes, filter_of, arith, subst,
}
use atlas_mcp.Guards.Retry.{RetryOptions, RetryState, blame, forgive, record_tool_result}

-- The state after `n` failures in a row of one call.
unfoldable pub after_failures : RetryOptions → RetryState → String → ℕ → RetryState
after_failures o s key zero = s
after_failures o s key (suc n) = (record_tool_result o (after_failures o s key n) key true).0

-- The failure at which a warning is due, and the failures from which on the call is stopped.
abbrev pub warning_at : RetryOptions → ℕ
warning_at o = max 1 o.warn_at

abbrev pub stopped : RetryOptions → ℕ → Bool
stopped o n = o.hard_stop_enabled && leb o.stop_at n

abbrev hinted : RetryOptions → ℕ → Bool
hinted o n = leb (warning_at o) n && not (stopped o (warning_at o))

-- What the state holds of a call that has failed `n` times in a row.
record Failed (o : RetryOptions) (key : String) (n : ℕ) (s : RetryState) : Type 0 where
  counted : or_else (get key s.failures_by_key) 0 ≡ n
  told : includes key s.hinted_keys ≡ hinted o n

Failed-next :
    (o : RetryOptions) (key : String) (n : ℕ) (s : RetryState)
    → Failed o key n s
    → Failed o key (n + 1) (record_tool_result o s key true).0
unfolding record_tool_result blame
Failed-next o key n s f = ground (arith, get-put_self key (n + 1) s.failures_by_key)

filter_gone :
    (key : String) (ks : List String) → includes key (filter_of (λ k. not (k == key)) ks) ≡ false
filter_gone key [] = refl
filter_gone key (k ∷ ks) = ground (arith, filter_gone key ks)

forgiven :
    (o : RetryOptions) (key : String) (s : RetryState)
    → Failed o key 0 (record_tool_result o s key false).0
unfolding record_tool_result forgive
forgiven o key s =
    ground (arith, get-put_self key 0 s.failures_by_key, filter_gone key s.hinted_keys)

after_failures-Failed :
    (o : RetryOptions) (key : String) (n : ℕ) (s : RetryState)
    → Failed o key 0 s
    → Failed o key n (after_failures o s key n)
unfolding after_failures
after_failures-Failed o key zero s f = f
after_failures-Failed o key (suc n) s f =
    let s' = after_failures o s key n in
    subst (λ k. Failed o key k (record_tool_result o s' key true).0) (add-one n)
      (Failed-next o key n s' (after_failures-Failed o key n s f))

verdict_of :
    (o : RetryOptions) (key : String) (n : ℕ) (s : RetryState)
    → Failed o key n s
    → (record_tool_result o s key true).1 ≡ record {
      failure_count = n + 1;
      should_warn = nat_eq (n + 1) (warning_at o) && not (stopped o (n + 1));
      should_stop = stopped o (n + 1);
    }
unfolding record_tool_result blame
verdict_of o key n s f = ground arith

-- Whatever happened before, after a success of a call its `n`-th failure in a row is counted as `n`,
-- stops exactly if hard stops are enabled and `n` has reached `stopAt`, and warns exactly once: at
-- `n = max(1, warnAt)`, unless that failure stops.
pub verdict_after :
    (o : RetryOptions) (s : RetryState) (key : String) (n : ℕ)
    → let s' = after_failures o (record_tool_result o s key false).0 key n in
      (record_tool_result o s' key true).1 ≡ record {
        failure_count = n + 1;
        should_warn = nat_eq (n + 1) (warning_at o) && not (stopped o (n + 1));
        should_stop = stopped o (n + 1);
      }
verdict_after o s key n = verdict_of o key n _ (after_failures-Failed o key n _ (forgiven o key s))
