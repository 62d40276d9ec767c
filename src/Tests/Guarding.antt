-- ===== src/Tests/Guarding.antt =====
-- Concrete calls of the guards of packages/runtime-core/src and of the leases of
-- packages/storage-sqlite/src/index.ts.
use atlas_mcp.Prelude.{
  ◌<◌, String, ◌≡◌, ◌≢◌, ◌↔◌, refl, true, false, none, List, [], ◌∷◌, get, ◌==◌, arith, text_dec,
}
use atlas_mcp.Guards.Breaker.{BreakerOptions, Breaker, check}
use atlas_mcp.Guards.Breaker.Trips.{Report, failure, report_all, streak, Blocks, check_iff}
use atlas_mcp.Guards.Retry.{RetryOptions, RetryState, Verdict, record_tool_result}
use atlas_mcp.Guards.Retry as Retry
use atlas_mcp.Guards.Retry.Warnings.{after_failures, verdict_after}
use atlas_mcp.Guards.Gate.{
  ToolEffect, read, mutate, Observation, GateState, requires_verification, mark_prompted,
}
use atlas_mcp.Guards.Gate as Gate
use atlas_mcp.Guards.Gate.Duty.{observe_all, requires_verification_lem}
use atlas_mcp.Store.Leases.{acquire, held_by_other}
use atlas_mcp.Store.Leases.Exclusion.{try_acquire, do_release, calls, acquire-excludes}

abbrev breaker_options : BreakerOptions
breaker_options = record { threshold = 2; cooldown_ms = 100 }

abbrev reports : List Report
reports = failure "t" 5 ∷ failure "u" 6 ∷ failure "t" 7 ∷ []

check_iff_example :
    (check breaker_options (report_all breaker_options [] reports) "t" 50 ≡ true)
    ↔ ((0 < 2) × Blocks breaker_options (streak "t" none reports) 50)
check_iff_example = check_iff breaker_options reports "t" 50

abbrev tripped : Breaker
tripped = ("t", record { count = 2; opened_at = 7 }) ∷ []

verdict_after_example :
    (record_tool_result Retry.default_options
      (after_failures Retry.default_options
        (record_tool_result Retry.default_options Retry.create "k" false).0
        "k"
        1)
      "k"
      true).1
    ≡ record { failure_count = 2; should_warn = true; should_stop = false }
verdict_after_example = verdict_after Retry.default_options Retry.create "k" 1

abbrev edit : Observation
edit = record {
  name = "edit";
  effect = mutate;
  structured_verification = false;
  expectation_provided = false;
}

abbrev look : Observation
look = record {
  name = "look";
  effect = read;
  structured_verification = true;
  expectation_provided = true;
}

requires_verification_lem_example :
    (requires_verification (observe_all Gate.create (look ∷ edit ∷ look ∷ [])) ≡ false)
    × (requires_verification (observe_all Gate.create (look ∷ [])) ≡ false)
requires_verification_lem_example =
    requires_verification_lem (look ∷ []) (look ∷ []) edit refl (refl, tt)

differ : (x y : String) → (x == y) ≡ false → x ≢ y
differ x y h = ground arith

acquire-excludes_example :
    let t' =
      calls (acquire [] "w" "a" 0 100).0 (do_release "w" "b" ∷ try_acquire "w" "c" 10 110 ∷ []) in
    acquire t' "w" "b" 50 150 ≡ (t', false)
unfolding acquire held_by_other get text_dec
acquire-excludes_example =
    acquire-excludes [] "w" "a" "b" 0 100 50 150
      (do_release "w" "b" ∷ try_acquire "w" "c" 10 110 ∷ []) refl
      (differ "b" "a" refl, ((differ "c" "a" refl, omega arith), tt)) (differ "b" "a" refl)
      (omega arith)
