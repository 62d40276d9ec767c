-- ===== src/Store.antt =====
-- packages/storage-sqlite/src/index.ts: tables as lists of rows, and a transaction as a result,
-- so that one that throws changes nothing.
pub mod Workflows
pub mod Leases
