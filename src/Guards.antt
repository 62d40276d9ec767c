-- ===== src/Guards.antt =====
-- The small state machines of packages/runtime-core/src: the circuit breaker, the retry guard and the
-- verification gate.
pub mod Breaker
pub mod Retry
pub mod Gate
