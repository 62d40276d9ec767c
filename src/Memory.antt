-- ===== src/Memory.antt =====
-- The memories of packages/memory/src/index.ts, and their table in
-- packages/storage-sqlite/src/index.ts.
pub mod Table
pub mod Compact
pub mod Execute
pub mod Rows
pub mod Frame
pub mod Isolation
pub mod Reads
pub mod Prepared
pub mod Marked
pub mod Supersession
pub mod Errors
