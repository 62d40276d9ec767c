-- ===== src/Tests.antt =====
-- Runs of the model on concrete inputs.
pub mod Samples
pub mod Histories
pub mod Guarding
pub mod Policies
pub mod Executions
pub mod Memories
pub mod Workflows
pub mod Recoveries
