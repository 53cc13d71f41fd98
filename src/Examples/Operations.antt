-- ===== src/Examples/Operations.antt =====
-- Runs of the operations of packages/core/src/lib/controller.
use tern_scheduler.Prelude.{Bool, true, false, some, none, ◌≡◌, refl, pos, same}
use tern_scheduler.Model.Value.{start_task, TaskState, queued}
use tern_scheduler.Model.Schedule.{ScheduledJob}
use tern_scheduler.Errors.{invalid_task_state, tern_error}
use tern_scheduler.Errors.Exec.{ok, err, pure, raise}
use tern_scheduler.Db.MemTable.Lookup.{lookup_rows}
use tern_scheduler.Store.Database.Laws.{job_at, task_at}
use tern_scheduler.Store.Jobs.Leases.{released, leased}
use tern_scheduler.Strategies
use tern_scheduler.Strategies.{always_run, after_new}
use tern_scheduler.Controller.World.{World, Env, JobExecutionState, running, failed}
use tern_scheduler.Controller.Schedule.{exit_value, run_update_in_lease}
use tern_scheduler.Controller.Schedule.Ends.{Ended, needs_repair}
use tern_scheduler.Controller.Schedule.Free.{
  run_update_in_lease-value, run_update_in_lease-error, held_world, held_row, row_held,
  held_db-IsConsistent,
}
use tern_scheduler.Controller.Running.{disable_schedule, start_task_now}
use tern_scheduler.Controller.Running.Disable.{disable_schedule-free}
use tern_scheduler.Controller.Running.Start.{LetsRun, queued_row}
use tern_scheduler.Controller.Running.Statuses.{started_row}
use tern_scheduler.Controller.Running.Started.{
  TaskEnded, launch_world, leased_row, start_task_now-running, start_task_now-failed,
}
use tern_scheduler.Controller.Running.Refused.{Rows, StartedNothing, start_task_now-busy}
use tern_scheduler.Examples.{
  backup_job, backup_task, backup_db, holding, job1_named, task1_named, backup-IsConsistent,
  holding-IsConsistent, env_answering, world_of,
}

job_found : job_at "job1" backup_db ≡ some backup_job
unfolding lookup_rows same
job_found = refl

task_found : task_at "task1" backup_db ≡ some backup_task
unfolding lookup_rows same
task_found = refl

abbrev run_env : Env
run_env = env_answering (running "exec1")

abbrev fail_env : Env
fail_env = env_answering (failed "exec1" none)

abbrev backup_world : World
backup_world = world_of backup_db

disable_schedule-free_example :
    Ended
      (ok tt)
      "job1"
      (released true (some "old") backup_job)
      backup_db.tasks
      (disable_schedule run_env backup_job (some "old") (pos 7) backup_world)
unfolding same
disable_schedule-free_example =
    disable_schedule-free run_env backup_job (some "old") (pos 7) backup_world backup_job job1_named
      backup-IsConsistent job_found refl

run_update_in_lease-value_example :
    Ended
      (ok true)
      "job1"
      (released false none backup_job)
      (held_world run_env start_task "job1" none
        (pos 7)
        backup_world
        backup_job
        job1_named
        backup-IsConsistent
        job_found
        refl).db.tasks
      (run_update_in_lease run_env start_task "job1" none
        (pos 7)
        (λ sched id. pure (exit_value true false none))
        backup_world)
run_update_in_lease-value_example =
    run_update_in_lease-value run_env start_task "job1" none (pos 7) backup_world backup_job
      job1_named backup-IsConsistent job_found refl (λ sched id. pure (exit_value true false none))
      true false none
      (held_world run_env start_task "job1" none (pos 7) backup_world backup_job job1_named
        backup-IsConsistent job_found refl)
      refl
      (held_db-IsConsistent run_env start_task "job1" none (pos 7) backup_world backup_job
        job1_named backup-IsConsistent job_found refl)
      (row_held run_env start_task "job1" none (pos 7) backup_world backup_job job1_named
        backup-IsConsistent job_found refl)

run_update_in_lease-error_example :
    Ended {T = Bool}
      (err (tern_error "broken"))
      "job1"
      (needs_repair (pos 7) false none (
        held_row run_env start_task "job1" none
          (pos 7)
          backup_world
          backup_job
          job1_named
          backup-IsConsistent
          job_found
          refl))
      (held_world run_env start_task "job1" none
        (pos 7)
        backup_world
        backup_job
        job1_named
        backup-IsConsistent
        job_found
        refl).db.tasks
      (run_update_in_lease run_env start_task "job1" none
        (pos 7)
        (λ sched id. raise (tern_error "broken"))
        backup_world)
run_update_in_lease-error_example =
    run_update_in_lease-error run_env start_task "job1" none (pos 7) backup_world backup_job
      job1_named backup-IsConsistent job_found refl {T = Bool}
      (λ sched id. raise (tern_error "broken")) (tern_error "broken")
      (held_world run_env start_task "job1" none (pos 7) backup_world backup_job job1_named
        backup-IsConsistent job_found refl)
      refl
      (held_db-IsConsistent run_env start_task "job1" none (pos 7) backup_world backup_job
        job1_named backup-IsConsistent job_found refl)
      (row_held run_env start_task "job1" none (pos 7) backup_world backup_job job1_named
        backup-IsConsistent job_found refl)

lets_run :
    (status : JobExecutionState) (sched : ScheduledJob)
    → sched.duplicate_strategy ≡ "run"
    → LetsRun (env_answering status) sched backup_task
unfolding Strategies.get same
lets_run status sched e = record {
  strategy = always_run;
  registered = rw e refl;
  runs = λ others. refl;
}

-- The world in which the framework is asked.
abbrev asked : JobExecutionState → World
asked status =
    launch_world (env_answering status) backup_task (pos 7) backup_world backup_task backup_job
      task1_named job1_named backup-IsConsistent task_found refl job_found refl

once_registered :
    Strategies.get "once" run_env.task_creation_registry ≡ ok (after_new (λ now sched. ok now))
unfolding Strategies.get same
once_registered = refl

start_task_now-running_example :
    TaskEnded backup_task
      (ok tt)
      (started_row (pos 0) "exec1" (queued_row (pos 7) backup_task))
      (released false none backup_job)
      (start_task_now run_env backup_task (pos 7) backup_world)
start_task_now-running_example =
    start_task_now-running run_env backup_task (pos 7) backup_world backup_task backup_job
      task1_named job1_named backup-IsConsistent task_found refl job_found refl "exec1"
      (asked (running "exec1")) refl (lets_run (running "exec1") _ refl)
      (after_new (λ now sched. ok now)) refl once_registered refl

start_task_now-failed_example :
    TaskEnded backup_task
      (err (
        invalid_task_state
          (started_row (pos 0) "exec1" (queued_row (pos 7) backup_task))
          TaskState.failed
          queued))
      (started_row (pos 0) "exec1" (queued_row (pos 7) backup_task))
      (needs_repair (pos 7) false none (
        leased_row fail_env backup_task
          (pos 7)
          backup_world
          backup_task
          backup_job
          task1_named
          job1_named
          backup-IsConsistent
          task_found
          refl
          job_found
          refl))
      (start_task_now fail_env backup_task (pos 7) backup_world)
start_task_now-failed_example =
    start_task_now-failed fail_env backup_task (pos 7) backup_world backup_task backup_job
      task1_named job1_named backup-IsConsistent task_found refl job_found refl "exec1"
      (asked (failed "exec1" none)) refl (lets_run (failed "exec1" none) _ refl) none refl

abbrev held_job : ScheduledJob
held_job = leased start_task (some "task0") "node2" (pos 300000) backup_job

held_job-Rows : Rows "job1" "task1" held_job backup_task (world_of (holding held_job backup_task))
unfolding same lookup_rows
held_job-Rows = record {
  consistent = holding-IsConsistent held_job backup_task refl refl;
  job = refl;
  task = refl;
}

start_task_now-busy_example :
    StartedNothing backup_task held_job backup_task
      (start_task_now run_env backup_task (pos 7) (world_of (holding held_job backup_task)))
start_task_now-busy_example =
    start_task_now-busy run_env backup_task (pos 7) (world_of (holding held_job backup_task))
      held_job backup_task start_task job1_named refl (λ n u r. r) held_job-Rows
