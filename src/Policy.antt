-- ===== src/Policy.antt =====
-- packages/policy-core/src/index.ts: what an operation does, and whether it may run.
pub mod Platform
pub mod Commands
pub mod Classify
pub mod Evidence
pub mod Grants
pub mod Evaluate
pub mod Approval
