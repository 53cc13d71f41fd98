-- ===== src/Store.antt =====
-- class DatabaseDataStore of packages/core/src/lib/datastore/db-impl.ts over the tables of
-- MemoryDatabase (memory.ts), as createMemoryDataStore() builds it. A method is a
-- chain of calls of the two tables, from what they hold before it to what they hold after it.
pub mod Database
pub mod Jobs
pub mod Tasks
pub mod Pages
pub mod Polling
pub mod Calls
