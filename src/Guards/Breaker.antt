-- ===== src/Guards/Breaker.antt =====
-- packages/runtime-core/src/circuit-breaker.ts. A clock reading is an argument.
pub mod Trips
use atlas_mcp.Prelude.{
  ℕ, ◌+◌, ◌-◌, String, Bool, true, false, Option, none, some, Map, get, put, delete, ltb, leb,
  nat_eq, if◌then◌else◌, List, [],
}

pub record BreakerOptions : Type 0 where
  pub threshold : ℕ
  pub cooldown_ms : ℕ

pub record Failures : Type 0 where
  pub count : ℕ
  pub opened_at : ℕ

abbrev pub Breaker : Type 0
Breaker = Map Failures

abbrev pub count_of : Option Failures → ℕ
count_of none = 0
count_of (some f) = f.count

-- The state of a target stands against an attempt at the time `now`: the count has reached the
-- threshold, and `now - openedAt < cooldownMs`.
unfoldable pub is_open : BreakerOptions → Option Failures → ℕ → Bool
is_open o none now = false
is_open o (some f) now =
    if ltb f.count o.threshold then false else ltb now (f.opened_at + o.cooldown_ms)

-- `check`: `true` is `circuit_open:<target>`. A threshold of 0 switches the breaker off.
unfoldable pub check : BreakerOptions → Breaker → String → ℕ → Bool
check o b target now = if nat_eq o.threshold 0 then false else is_open o (get target b) now

-- `recordFailure`
unfoldable pub record_failure : BreakerOptions → Breaker → String → ℕ → Breaker
record_failure o b target now =
    if nat_eq o.threshold 0
    then b
    else put target (record { count = count_of (get target b) + 1; opened_at = now }) b

-- `recordSuccess`
unfoldable pub record_success : Breaker → String → Breaker
record_success b target = delete target b
