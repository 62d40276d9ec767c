-- ===== src/Guards/Breaker/Trips.antt =====
-- When the circuit breaker of packages/runtime-core/src/circuit-breaker.ts refuses an attempt.
use atlas_mcp.Prelude.{
  ℕ, ◌+◌, ◌≤◌, ◌<◌, String, ◌≡◌, ◌↔◌, refl, true, false, Option, none, some, List, [], ◌∷◌, get,
  get-put, get-delete, get-put_self, ap, ◌∙◌, ◌==◌, if◌then◌else◌, arith,
}
use atlas_mcp.Guards.Breaker.{
  BreakerOptions, Failures, Breaker, count_of, is_open, check, record_failure, record_success,
}

-- What the controller reports to the breaker, with the time of a failure.
pub data Report : Type 0 where
  failure : (target : String) (at : ℕ) → Report
  success : (target : String) → Report

unfoldable pub report : BreakerOptions → Breaker → Report → Breaker
report o b (failure t now) = record_failure o b t now
report o b (success t) = record_success b t

unfoldable pub report_all : BreakerOptions → Breaker → List Report → Breaker
report_all o b [] = b
report_all o b (r ∷ rs) = report_all o (report o b r) rs

-- The failures of a target since its last success, and the time of the last of them.
abbrev pub streak : String → Option Failures → List Report → Option Failures
streak t acc [] = acc
streak t acc (failure k now ∷ rs) =
    streak t (if k == t then some (record { count = count_of acc + 1; opened_at = now }) else acc)
      rs
streak t acc (success k ∷ rs) = streak t (if k == t then none else acc) rs

get-report_failure :
    (o : BreakerOptions) (b : Breaker) (k t : String) (now : ℕ)
    → 0 < o.threshold
    → get t (report o b (failure k now)) ≡ (
        if k == t
        then some (record { count = count_of (get t b) + 1; opened_at = now })
        else get t b)
unfolding report record_failure
get-report_failure o b k t now h =
    ground (arith, get-put k t (record { count = count_of (get k b) + 1; opened_at = now }) b)

get-report_success :
    (o : BreakerOptions) (b : Breaker) (k t : String)
    → get t (report o b (success k)) ≡ (if k == t then none else get t b)
unfolding report record_success
get-report_success o b k t = get-delete k t b

get-report_all :
    (o : BreakerOptions) (b : Breaker) (rs : List Report) (t : String)
    → 0 < o.threshold
    → get t (report_all o b rs) ≡ streak t (get t b) rs
unfolding report_all
get-report_all o b [] t h = refl
get-report_all o b (failure k now ∷ rs) t h =
    get-report_all o (report o b (failure k now)) rs t h
    ∙ ap (λ f. streak t f rs) (get-report_failure o b k t now h)
get-report_all o b (success k ∷ rs) t h =
    get-report_all o (report o b (success k)) rs t h
    ∙ ap (λ f. streak t f rs) (get-report_success o b k t)

-- A streak that stands against an attempt at a time.
abbrev pub Blocks : BreakerOptions → Option Failures → ℕ → Type 0
Blocks o none now = ⊥
Blocks o (some f) now = (o.threshold ≤ f.count) × (now < f.opened_at + o.cooldown_ms)

is_open_iff :
    (o : BreakerOptions) (f : Option Failures) (now : ℕ) → (is_open o f now ≡ true) ↔ Blocks o f now
unfolding is_open
is_open_iff o none now = ground arith
is_open_iff o (some f) now = ground arith

-- After any reports to a fresh breaker, an attempt on a target is refused exactly when the breaker
-- is on, the target's failures since its last success reach the threshold, and the cooldown since
-- the last of them is not over. Reports on other targets play no part.
pub check_iff :
    (o : BreakerOptions) (rs : List Report) (t : String) (now : ℕ)
    → (check o (report_all o [] rs) t now ≡ true)
      ↔ ((0 < o.threshold) × Blocks o (streak t none rs) now)
unfolding check get
check_iff o rs t now =
    ground (arith, get-report_all o [] rs t, is_open_iff o (streak t none rs) now)

-- After the cooldown of an open target one attempt is let through; if it fails, the target is
-- refused at once for another cooldown.
pub check-record_failure :
    (o : BreakerOptions) (b : Breaker) (t : String) (now later : ℕ) (f : Failures)
    → 0 < o.threshold
    → get t b ≡ some f
    → o.threshold ≤ f.count
    → f.opened_at + o.cooldown_ms ≤ now
    → later < now + o.cooldown_ms
    → (check o b t now ≡ false) × (check o (record_failure o b t now) t later ≡ true)
unfolding check is_open record_failure
check-record_failure o b t now later f h p c past early =
    ground (arith, get-put_self t (record { count = f.count + 1; opened_at = now }) b)
