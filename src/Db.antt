-- ===== src/Db.antt =====
-- packages/core/src/lib/datastore/db-api.ts and memory.ts: conditions on rows and the table.
pub mod Conditional
pub mod MemTable
