-- ===== src/Protocol.antt =====
-- The shared types of packages/protocol/src/index.ts. A schema is the type of what it accepts;
-- identifiers are texts, and the patterns that they must match are not modelled. Times are the
-- milliseconds that the ISO texts stand for.
pub mod Json
pub mod Failure
pub mod Effect
pub mod Operation
pub mod Task
pub mod Workflow
