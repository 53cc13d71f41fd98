-- ===== src/Controller.antt =====
-- packages/core/src/lib/controller: operations that span the store, the strategies, the job
-- execution framework and the event emitter.
pub mod World
pub mod Schedule
pub mod Combined
pub mod Running
pub mod Repair
