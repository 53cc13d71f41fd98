-- ===== src/Examples/Repairs.antt =====
-- A run of repairExpiredSchedule of packages/core/src/lib/controller/repair.ts.
use tern_scheduler.Prelude.{true, some, ◌≡◌, refl, pos, same}
use tern_scheduler.Model.Value.{end_task}
use tern_scheduler.Model.Schedule.{ScheduledJob}
use tern_scheduler.Errors.Exec.{ok}
use tern_scheduler.Db.MemTable.Lookup.{lookup_rows}
use tern_scheduler.Store.Database.{Database}
use tern_scheduler.Store.Database.Laws.{job_at, IsConsistent}
use tern_scheduler.Store.Jobs.Leases.{released, leased}
use tern_scheduler.Controller.World.{running}
use tern_scheduler.Controller.Schedule.Ends.{Ended}
use tern_scheduler.Controller.Repair.{repair_expired_schedule}
use tern_scheduler.Controller.Repair.Unfinished.{repair_expired_schedule-unfinished}
use tern_scheduler.Examples.{
  backup_job, backup_task, holding, holding-IsConsistent, job1_named, env_answering, world_of,
}

abbrev ending_job : ScheduledJob
ending_job = leased end_task (some "task1") "node2" (pos 300000) backup_job

abbrev ending_db : Database
ending_db = holding ending_job backup_task

ending_db-IsConsistent : IsConsistent ending_db
unfolding same
ending_db-IsConsistent = holding-IsConsistent ending_job backup_task refl refl

ending_found : job_at "job1" ending_db ≡ some ending_job
unfolding lookup_rows same
ending_found = refl

repair_expired_schedule-unfinished_example :
    Ended (ok tt) "job1" (released true (some "error") ending_job) ending_db.tasks (
      repair_expired_schedule
        (env_answering (running "exec1"))
        ending_job
        (pos 7)
        (world_of ending_db))
repair_expired_schedule-unfinished_example =
    repair_expired_schedule-unfinished (env_answering (running "exec1")) ending_job ending_job
      (pos 7) (pos 300000) end_task (world_of ending_db) job1_named ending_db-IsConsistent
      ending_found refl refl refl refl refl
