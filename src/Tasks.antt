-- ===== src/Tasks.antt =====
-- The task controller of packages/runtime-core/src/task-controller.ts and the tables of
-- packages/storage-sqlite/src/index.ts that it keeps tasks in.
pub mod Receipts
pub mod Store
pub mod World
pub mod Plan
pub mod Begin
pub mod Execute
pub mod Finish
pub mod Gated
pub mod Retries
pub mod Certified
pub mod Verified
pub mod Claims
pub mod Once
pub mod Answers
pub mod Planning
