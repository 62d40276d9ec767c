-- ===== src/Workflow.antt =====
-- packages/runtime-core/src/workflow-controller.ts.
pub mod Transition
pub mod Control
pub mod History
pub mod Consistency
pub mod Commits
pub mod StatusEvents
pub mod Halting
pub mod Conflicts
pub mod Ready
pub mod Graph
pub mod Nodes
pub mod Keys
pub mod Statuses
pub mod Recovered
pub mod Actions
pub mod Advance
pub mod Planning
pub mod Recovery
pub mod Creation
pub mod Skipped
pub mod Reconciled
pub mod Replayed
