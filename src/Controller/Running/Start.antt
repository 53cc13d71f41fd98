-- ===== src/Controller/Running/Start.antt =====
-- What startTask (packages/core/src/lib/controller/combined.ts) runs under the lease, up to the
-- answer of the job execution framework, for a task that is not skipped.
use tern_scheduler.Prelude.{String, false, none, some, List, [], ◌∷◌, ◌≡◌, ◌≢◌}
use tern_scheduler.Model.Value.{Date, pending, queued}
use tern_scheduler.Model.Schedule.{ScheduledJob}
use tern_scheduler.Model.Task.{Task, set_execution_queued}
use tern_scheduler.Errors.Exec.{ok, ◌>>=◌, ◌>>◌, pure}
use tern_scheduler.Store.Database.{find_tasks}
use tern_scheduler.Store.Database.Laws.{task_at, job_at, IsConsistent}
use tern_scheduler.Store.Tasks.{mark_task_queued, get_tasks_for_scheduled_job}
use tern_scheduler.Store.Tasks.Transitions.{moved, granted, moved-IsConsistent, job_at-moved}
use tern_scheduler.Strategies
use tern_scheduler.Strategies.{DuplicateTaskStrategy}
use tern_scheduler.Controller.World.{World, Env, JobExecutionState, on_store}
use tern_scheduler.Controller.Schedule.{exit_value}
use tern_scheduler.Controller.Combined.{should_skip_task}
use tern_scheduler.Controller.Running.{start_leased, launch, record_status, follow_current}

-- The row of a task once it is queued.
abbrev pub queued_row : Date → Task → Task
queued_row now t = record t { execution_queued = some now; state = queued }

-- The duplicate strategy that is registered for the job lets the task run, whatever else runs.
pub record LetsRun (env : Env) (sched : ScheduledJob) (task : Task) : Type 0 where
  pub strategy : DuplicateTaskStrategy
  pub registered : Strategies.get sched.duplicate_strategy env.duplicate_task_registry ≡ ok strategy
  pub runs : (others : List Task) → strategy.should_skip sched others task ≡ false

should_skip_task_lem :
    (env : Env) (sched : ScheduledJob) (task : Task) (w : World)
    → LetsRun env sched task
    → should_skip_task env sched task w ≡ (ok false, w)
unfolding should_skip_task on_store get_tasks_for_scheduled_job find_tasks
should_skip_task_lem env sched task w lets = rw (lets.registered, lets.runs _)

module _ (env : Env) (task : Task) (now : Date) (w : World) (t : Task) (named : task.pk ≢ "")
    (v : IsConsistent w.db) (found : task_at task.pk w.db ≡ some t)
    (is_pending : t.state ≡ pending) where
  abbrev pub queued_world : World
  queued_world = record w {
    db = moved task.pk named w.db v pending queued (set_execution_queued (some now) ∷ []) t found;
  }

  marked : on_store (mark_task_queued task now) w ≡ (ok tt, queued_world)
  unfolding mark_task_queued on_store
  marked =
      rw
        (granted task.pk named w.db v pending queued (set_execution_queued (some now) ∷ []) t found
          (rw is_pending)).0

  pub row_queued : task_at task.pk queued_world.db ≡ some (queued_row now t)
  row_queued =
      (granted task.pk named w.db v pending queued (set_execution_queued (some now) ∷ []) t found
        (rw is_pending)).1

  pub queued-IsConsistent : IsConsistent queued_world.db
  queued-IsConsistent = moved-IsConsistent task.pk named w.db v pending queued _ t found

  pub job_at-queued : (k : String) → job_at k queued_world.db ≡ job_at k w.db
  job_at-queued = job_at-moved task.pk named w.db v pending queued _ t found

  -- With a row that is pending, the framework is asked to start the job, and what follows depends
  -- on its answer.
  pub start_leased-launched :
      (sched : ScheduledJob) (status : JobExecutionState) (u : World)
      → LetsRun env sched task
      → env.start_job task.pk sched.job_name sched.job_context queued_world ≡ (ok status, u)
      → start_leased env task now sched w
        ≡ (record_status env now sched task status >>= λ current.
              follow_current env now sched current >> pure (exit_value tt false none))
            u
  unfolding start_leased launch
  start_leased-launched sched status u lets launched =
      rw (marked, should_skip_task_lem env sched task queued_world lets, launched)
