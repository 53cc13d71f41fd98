-- ===== src/Cron.antt =====
-- Cron schedules (packages/core/src/lib/strategies/task-creation/cron).
pub mod Calendar
pub mod Next
pub mod Text
pub mod Expression
pub mod Strategy
