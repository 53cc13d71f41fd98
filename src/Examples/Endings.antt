-- ===== src/Examples/Endings.antt =====
-- Runs of createScheduledJob and taskFinished of packages/core/src/lib/controller/combined.ts.
use tern_scheduler.Prelude.{false, some, none, [], ◌≡◌, refl, pos, same, contains}
use tern_scheduler.Model.Value
use tern_scheduler.Model.Value.{started}
use tern_scheduler.Model.Task.{Task}
use tern_scheduler.Errors.Exec.{ok, called}
use tern_scheduler.Db.Conditional.{matches_record}
use tern_scheduler.Db.MemTable.{find, key_taken}
use tern_scheduler.Db.MemTable.Lookup.{lookup_rows}
use tern_scheduler.Store.Database.{empty_database, find_tasks}
use tern_scheduler.Store.Database.Laws.{job_at, task_at, IsConsistent, empty_database-IsConsistent}
use tern_scheduler.Store.Database.Fresh.{IsFresh}
use tern_scheduler.Store.Jobs.Leases.{released}
use tern_scheduler.Store.Tasks.{get_task_by_execution_job_id}
use tern_scheduler.Strategies
use tern_scheduler.Strategies.{TaskCreationStrategy, after_new}
use tern_scheduler.Controller.World.{Env, running, completed, on_store}
use tern_scheduler.Controller.Schedule.{NewScheduledJob, new_model}
use tern_scheduler.Controller.Schedule.Ends.{needs_repair}
use tern_scheduler.Controller.Combined.{new_task, create_scheduled_job}
use tern_scheduler.Controller.Combined.Created.{Created, create_scheduled_job-fresh}
use tern_scheduler.Controller.Running.{task_finished_now}
use tern_scheduler.Controller.Running.Started.{TaskEnded}
use tern_scheduler.Controller.Running.Finished.{
  completed_row, ending_row, task_finished_now-completed, task_finished_now-repeated,
}
use tern_scheduler.Examples.{
  backup_job, backup_task, holding, job1_named, task1_named, holding-IsConsistent, env_answering,
  world_of,
}

abbrev backup_request : NewScheduledJob
backup_request = record {
  display_name = "backup";
  description = "";
  duplicate_strategy = "run";
  job_name = "backup";
  job_context = "";
  retry_strategy = "none";
  task_creation_strategy = "once";
  schedule_definition = "";
  previous_schedule = none;
  previous_reason = none;
}

abbrev run_env : Env
run_env = env_answering (running "exec1")

abbrev once : TaskCreationStrategy
once = after_new (λ now sched. ok now)

once_registered : Strategies.get "once" run_env.task_creation_registry ≡ ok once
unfolding Strategies.get same
once_registered = refl

key_IsFresh : IsFresh "key" []
unfolding same contains key_taken
key_IsFresh = (refl, refl)

create_scheduled_job-fresh_example :
    Created
      (released false none (new_model backup_request (pos 7) "key" "key"))
      (new_task "key" "key" (pos 7) (pos 7))
      (create_scheduled_job run_env backup_request (pos 7) (world_of empty_database))
create_scheduled_job-fresh_example =
    create_scheduled_job-fresh run_env backup_request (pos 7) (world_of empty_database)
      empty_database-IsConsistent (pos 7) once once_registered refl key_IsFresh key_IsFresh

-- The task that the framework runs as `exec1`, and the same task when it has ended.
abbrev running_task : Task
running_task = record backup_task { state = started; execution_job_id = some "exec1" }

abbrev ended_task : Task
ended_task = record running_task { state = Value.completed }

stored-IsConsistent : (t : Task) → same t.pk "" ≡ false → IsConsistent (holding backup_job t)
unfolding same
stored-IsConsistent t h = holding-IsConsistent backup_job t refl h

task_named : same "task1" "" ≡ false
unfolding same
task_named = refl

job_found : (t : Task) → job_at "job1" (holding backup_job t) ≡ some backup_job
unfolding lookup_rows same
job_found t = refl

running_found : task_at "task1" (holding backup_job running_task) ≡ some running_task
unfolding lookup_rows same
running_found = refl

ended_found : task_at "task1" (holding backup_job ended_task) ≡ some ended_task
unfolding lookup_rows same
ended_found = refl

running_executed :
    on_store (get_task_by_execution_job_id "exec1") (world_of (holding backup_job running_task))
    ≡ (ok (some running_task), world_of (holding backup_job running_task))
unfolding on_store get_task_by_execution_job_id find_tasks find matches_record same
running_executed = refl

ended_executed :
    on_store (get_task_by_execution_job_id "exec1") (world_of (holding backup_job ended_task))
    ≡ (ok (some ended_task), world_of (holding backup_job ended_task))
unfolding on_store get_task_by_execution_job_id find_tasks find matches_record same
ended_executed = refl

task_finished_now-completed_example :
    TaskEnded running_task
      (ok tt)
      (completed_row (pos 9) "done" running_task)
      (released false none backup_job)
      (called
        (task_finished_now run_env "exec1" (completed "exec1" (some "done")) (pos 9))
        (world_of (holding backup_job running_task)))
task_finished_now-completed_example =
    task_finished_now-completed run_env running_task (pos 9)
      (world_of (holding backup_job running_task)) backup_job "exec1" (some "done") task1_named
      job1_named (stored-IsConsistent running_task task_named) running_found running_executed
      (job_found running_task) refl refl once once_registered refl

task_finished_now-repeated_example :
    TaskEnded ended_task
      (ok tt)
      ended_task
      (needs_repair (pos 9) false none (
        ending_row run_env ended_task
          (pos 9)
          (world_of (holding backup_job ended_task))
          backup_job
          "exec1"
          (some "done")
          task1_named
          job1_named
          (stored-IsConsistent ended_task task_named)
          ended_found
          ended_executed
          (job_found ended_task)
          refl))
      (called
        (task_finished_now run_env "exec1" (completed "exec1" (some "done")) (pos 9))
        (world_of (holding backup_job ended_task)))
task_finished_now-repeated_example =
    task_finished_now-repeated run_env ended_task (pos 9) (world_of (holding backup_job ended_task))
      backup_job "exec1" (some "done") task1_named job1_named
      (stored-IsConsistent ended_task task_named) ended_found ended_executed (job_found ended_task)
      refl refl
