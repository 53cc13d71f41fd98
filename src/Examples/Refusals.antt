-- ===== src/Examples/Refusals.antt =====
-- A run of startTask of packages/core/src/lib/controller/combined.ts that the framework refuses.
use tern_scheduler.Prelude.{false, some, none, ◌≡◌, refl, pos, same}
use tern_scheduler.Model.Schedule.{ScheduledJob}
use tern_scheduler.Errors.Exec.{ok}
use tern_scheduler.Db.MemTable.Lookup.{lookup_rows}
use tern_scheduler.Store.Database.Laws.{job_at, task_at}
use tern_scheduler.Store.Jobs.Leases.{released}
use tern_scheduler.Strategies
use tern_scheduler.Strategies.{always_run}
use tern_scheduler.Controller.World.{Env, did_not_start}
use tern_scheduler.Controller.Running.{start_task_now}
use tern_scheduler.Controller.Running.Start.{LetsRun, queued_row}
use tern_scheduler.Controller.Running.Started.{TaskEnded, launch_world}
use tern_scheduler.Controller.Running.NotStarted.{start_error_row, start_task_now-did_not_start}
use tern_scheduler.Examples.{
  backup_job, backup_task, backup_db, job1_named, task1_named, backup-IsConsistent, env_answering,
  world_of,
}

abbrev refusing_env : Env
refusing_env = env_answering (did_not_start (some "no such job"))

job_found : job_at "job1" backup_db ≡ some backup_job
unfolding lookup_rows same
job_found = refl

task_found : task_at "task1" backup_db ≡ some backup_task
unfolding lookup_rows same
task_found = refl

refusing_env-LetsRun :
    (sched : ScheduledJob)
    → sched.duplicate_strategy ≡ "run"
    → LetsRun refusing_env sched backup_task
unfolding Strategies.get same
refusing_env-LetsRun sched e = record {
  strategy = always_run;
  registered = rw e refl;
  runs = λ others. refl;
}

start_task_now-did_not_start_example :
    TaskEnded backup_task
      (ok tt)
      (start_error_row (pos 0) "no such job" (queued_row (pos 7) backup_task))
      (released false none backup_job)
      (start_task_now refusing_env backup_task (pos 7) (world_of backup_db))
start_task_now-did_not_start_example =
    start_task_now-did_not_start refusing_env backup_task (pos 7) (world_of backup_db) backup_task
      backup_job task1_named job1_named backup-IsConsistent task_found refl job_found refl
      (some "no such job")
      (launch_world refusing_env backup_task (pos 7) (world_of backup_db) backup_task backup_job
        task1_named job1_named backup-IsConsistent task_found refl job_found refl)
      refl (refusing_env-LetsRun _ refl) refl
