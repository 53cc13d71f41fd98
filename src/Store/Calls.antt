-- ===== src/Store/Calls.antt =====
-- The methods of packages/core/src/lib/datastore/db-impl.ts that change the tables, as calls that
-- any number of scheduler nodes make in any order. A method is a chain of promises, so that calls of
-- other nodes come between its calls of the tables. Each method changes the tables in one call of a
-- table, which memory.ts runs at once, and that call is the step here. What a method reads after it
-- only goes into its answer. repairExpiredLeaseForScheduledJob alone reads before: its step takes
-- the row that it has read as an argument, which may be any row, however old; a repair that reads no
-- row changes nothing. A release has `none` for a pasture flag that is not defined.
pub mod Consistency
pub mod Exclusion
pub mod LeaseCycle
pub mod StartOnce
use tern_scheduler.Prelude.{ℕ, String, Bool, Option, List, [], ◌∷◌}
use tern_scheduler.Model.Value.{Date, ScheduleState, TaskState}
use tern_scheduler.Model.Schedule.{ScheduledJob}
use tern_scheduler.Model.Task.{Task}
use tern_scheduler.Store.Database.{Database}
use tern_scheduler.Store.Jobs.{
  add_scheduled_job_model, delete_scheduled_job, steal_expired_lease_for_scheduled_job,
  lease_scheduled_job, release_scheduled_job_lease, take_expired_lease,
  mark_leased_scheduled_job_needs_repair,
}
use tern_scheduler.Store.Tasks.{
  add_task, mark_task_queued, mark_task_started, mark_task_start_failed, mark_task_completed,
  mark_task_skipped, mark_task_failed, delete_finished_task,
}

pub data Call : Type 0 where
  adds_job : ScheduledJob → String → Date → ℕ → Call
  deletes_job : ScheduledJob → Call
  steals : String → String → Date → ℕ → Call
  leases : String → ScheduleState → Option String → String → Date → ℕ → Call
  releases : String → String → Option Bool → Option String → Call
  repairs : String → String → Date → ℕ → ScheduledJob → Call
  marks_repair : String → String → Date → Bool → Option String → Call
  adds_task : Task → Call
  queues : Task → Date → Call
  starts : Task → Date → String → Call
  start_fails : Task → Date → String → Call
  completes : Task → Date → String → Call
  skips : Task → Date → Call
  fails : Task → Date → TaskState → TaskState → String → Call
  deletes_task : Task → Call

pub step : Database → Call → Database
step db (adds_job model id now secs) = (add_scheduled_job_model model id now secs db).1
step db (deletes_job job) = (delete_scheduled_job job db).1
step db (steals pk id now secs) = (steal_expired_lease_for_scheduled_job pk id now secs db).1
step db (leases pk op task id now secs) = (lease_scheduled_job pk op task id now secs db).1
step db (releases id pk pasture reason) = (release_scheduled_job_lease id pk pasture reason db).1
step db (repairs pk id now secs src) = (take_expired_lease pk id now secs src db).1
step db (marks_repair pk id now pasture reason) =
    (mark_leased_scheduled_job_needs_repair pk id now pasture reason db).1
step db (adds_task task) = (add_task task db).1
step db (queues task now) = (mark_task_queued task now db).1
step db (starts task now id) = (mark_task_started task now id db).1
step db (start_fails task now reason) = (mark_task_start_failed task now reason db).1
step db (completes task now info) = (mark_task_completed task now info db).1
step db (skips task now) = (mark_task_skipped task now db).1
step db (fails task now expected state info) = (mark_task_failed task now expected state info db).1
step db (deletes_task task) = (delete_finished_task task db).1

pub run : Database → List Call → Database
run db [] = db
run db (c ∷ cs) = run (step db c) cs
