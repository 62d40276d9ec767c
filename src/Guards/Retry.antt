-- ===== src/Guards/Retry.antt =====
-- packages/runtime-core/src/retry-guard.ts. The key of a call, a hash of the tool's name and of the
-- canonical JSON of its input, is an argument.
pub mod Warnings
use atlas_mcp.Prelude.{
  ℕ, ◌+◌, String, Bool, true, false, not, ◌&&◌, ◌==◌, Option, List, [], ◌∷◌, Map, get, put, leb,
  or_else, includes, filter_of, if◌then◌else◌,
}

pub record RetryOptions : Type 0 where
  pub warn_at : ℕ
  pub stop_at : ℕ
  pub hard_stop_enabled : Bool

abbrev pub default_options : RetryOptions
default_options = record { warn_at = 2; stop_at = 5; hard_stop_enabled = false }

pub record RetryState : Type 0 where
  pub failures_by_key : Map ℕ
  pub hinted_keys : List String

pub record Verdict : Type 0 where
  pub failure_count : ℕ
  pub should_warn : Bool
  pub should_stop : Bool

-- `createRetryGuardState`, and what `resetRetryGuard` leaves
unfoldable pub create : RetryState
create = record { failures_by_key = []; hinted_keys = [] }

-- The call succeeded.
unfoldable pub forgive : RetryState → String → RetryState × Verdict
forgive s key = (
  record {
    failures_by_key = put key 0 s.failures_by_key;
    hinted_keys = filter_of (λ k. not (k == key)) s.hinted_keys;
  },
  record { failure_count = 0; should_warn = false; should_stop = false },
)

-- The call failed, for the time of the count.
unfoldable pub blame : RetryOptions → RetryState → String → ℕ → RetryState × Verdict
blame o s key count =
    let stop = o.hard_stop_enabled && leb o.stop_at count in
    let warn = leb o.warn_at count && not (includes key s.hinted_keys) && not stop in
    (
      record {
        failures_by_key = put key count s.failures_by_key;
        hinted_keys = if warn then key ∷ s.hinted_keys else s.hinted_keys;
      },
      record { failure_count = count; should_warn = warn; should_stop = stop },
    )

-- `recordToolResult`
unfoldable pub record_tool_result :
    RetryOptions → RetryState → String → (failed : Bool) → RetryState × Verdict
record_tool_result o s key failed =
    if failed then blame o s key (or_else (get key s.failures_by_key) 0 + 1) else forgive s key
