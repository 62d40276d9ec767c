-- ===== src/Events.antt =====
-- packages/runtime-core/src/workflow-events.ts: a run is rebuilt from its events.
pub mod Reduce
pub mod Steps
pub mod Replay
