-- ===== src/Model.antt =====
-- packages/core/src/lib/model: the scheduled job and the task, as the data store keeps them.
pub mod Value
pub mod Schedule
pub mod Task
