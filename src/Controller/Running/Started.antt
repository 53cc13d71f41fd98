-- ===== src/Controller/Running/Started.antt =====
-- startTask of packages/core/src/lib/controller/combined.ts, from the lease to its end, when the
-- scheduled job is free and the task is pending.
use tern_scheduler.Prelude.{
  String, Bool, true, false, Option, none, some, [], ◌∷◌, ◌++◌, ◌≡◌, ◌≢◌, refl, ap, ◌∙◌,
}
use tern_scheduler.Model.Value.{Date, TaskState, start_task, pending, queued}
use tern_scheduler.Model.Schedule.{ScheduledJob}
use tern_scheduler.Model.Task.{Task}
use tern_scheduler.Errors.{invalid_task_state}
use tern_scheduler.Errors.Exec.{Result, ok, err, pure}
use tern_scheduler.Db.MemTable.Lookup.{lookup}
use tern_scheduler.Store.Database.{task_model}
use tern_scheduler.Store.Database.Laws.{task_at, job_at, IsConsistent}
use tern_scheduler.Store.Jobs.Leases.{released}
use tern_scheduler.Strategies
use tern_scheduler.Strategies.{TaskCreationStrategy, after_new, after_start, after_finish}
use tern_scheduler.Controller.World.{World, Env, running, failed, task_running}
use tern_scheduler.Controller.Schedule.{exit_value}
use tern_scheduler.Controller.Schedule.Ends.{answered, needs_repair}
use tern_scheduler.Controller.Schedule.Free.{
  held_world, held_row, row_held, held_db-IsConsistent, held_db-tasks, run_update_in_lease-value,
  run_update_in_lease-error,
}
use tern_scheduler.Controller.Running.{start_task_now, start_leased, follow_started}
use tern_scheduler.Controller.Running.Start.{
  LetsRun, queued_world, queued_row, row_queued, queued-IsConsistent, job_at-queued,
  start_leased-launched,
}
use tern_scheduler.Controller.Running.Statuses.{
  started_row, started_world, row_started, record_status-running, record_status-failed,
  unrecorded_world, started-IsConsistent, job_at-started, row_unrecorded, unrecorded-IsConsistent,
  job_at-unrecorded,
}

-- How startTask left the world: its answer, the row of the task, and that of its scheduled job.
pub record TaskEnded (task : Task) (answer : Result (Unit {0})) (task_row : Task)
    (job_row : ScheduledJob) (after : Result (Unit {0}) × World) : Type 0 where
  pub answers : after.0 ≡ answer
  pub task_after : task_at task.pk after.1.db ≡ some task_row
  pub job_after : job_at task.schedule after.1.db ≡ some job_row

abbrev pub creates_after_start : TaskCreationStrategy → Bool
creates_after_start (after_start create next) = true
creates_after_start (after_new create) = false
creates_after_start (after_finish create next) = false

follow_later :
    (env : Env) (now : Date) (sched : ScheduledJob) (task : Task) (strategy : TaskCreationStrategy)
    → creates_after_start strategy ≡ false
    → follow_started env now sched task strategy ≡ pure tt
follow_later env now sched task (after_start create next) e = cc
follow_later env now sched task (after_new create) e = refl
follow_later env now sched task (after_finish create next) e = refl

module _ (env : Env) (task : Task) (now : Date) (w : World) (t : Task) (j : ScheduledJob)
    (named : task.pk ≢ "") (of_job : task.schedule ≢ "") (v : IsConsistent w.db)
    (found : task_at task.pk w.db ≡ some t) (is_pending : t.state ≡ pending)
    (job_found : job_at task.schedule w.db ≡ some j) (free : j.update_state ≡ none) where
  abbrev pub leased_world : World
  leased_world =
      held_world env start_task task.schedule (some task.pk) now w j of_job v job_found free

  abbrev pub leased_row : ScheduledJob
  leased_row = held_row env start_task task.schedule (some task.pk) now w j of_job v job_found free

  pub leased-IsConsistent : IsConsistent leased_world.db
  leased-IsConsistent =
      held_db-IsConsistent env start_task task.schedule (some task.pk) now w j of_job v job_found
        free

  pub task_found : task_at task.pk leased_world.db ≡ some t
  task_found =
      ap (lookup task_model task.pk)
        (held_db-tasks env start_task task.schedule (some task.pk) now w j of_job v job_found free)
      ∙ found

  -- The world in which the framework is asked to start the job.
  abbrev pub launch_world : World
  launch_world =
      queued_world env task now leased_world t named leased-IsConsistent task_found is_pending

  launch-IsConsistent : IsConsistent launch_world.db
  launch-IsConsistent =
      queued-IsConsistent env task now leased_world t named leased-IsConsistent task_found
        is_pending

  task_queued : task_at task.pk launch_world.db ≡ some (queued_row now t)
  task_queued =
      row_queued env task now leased_world t named leased-IsConsistent task_found is_pending

  job_kept : job_at task.schedule launch_world.db ≡ some leased_row
  job_kept =
      job_at-queued env task now leased_world t named leased-IsConsistent task_found is_pending
        task.schedule
      ∙ row_held env start_task task.schedule (some task.pk) now w j of_job v job_found free

  module _ (job_id : String) (u : World) (same_db : u.db ≡ launch_world.db)
      (lets : LetsRun env leased_row task) where
    pub u-IsConsistent : IsConsistent u.db
    u-IsConsistent = rw same_db launch-IsConsistent

    pub u_task : task_at task.pk u.db ≡ some (queued_row now t)
    u_task = ap (task_at task.pk) same_db ∙ task_queued

    pub u_job : job_at task.schedule u.db ≡ some leased_row
    u_job = ap (job_at task.schedule) same_db ∙ job_kept

    abbrev pub ran_world : World
    ran_world =
        record (started_world env task u (queued_row now t) named u-IsConsistent u_task refl
          job_id) { events = u.events ++ task_running task job_id ∷ [] }

    ran_job : job_at task.schedule ran_world.db ≡ some leased_row
    ran_job =
        job_at-started env task u (queued_row now t) named u-IsConsistent u_task refl job_id
          task.schedule
        ∙ u_job

    leased_run :
        (strategy : TaskCreationStrategy)
        → env.start_job task.pk leased_row.job_name leased_row.job_context launch_world
          ≡ (ok (running job_id), u)
        → Strategies.get j.task_creation_strategy env.task_creation_registry ≡ ok strategy
        → creates_after_start strategy ≡ false
        → start_leased env task now leased_row leased_world
          ≡ (ok (exit_value tt false none), ran_world)
    leased_run strategy launched registered later =
        rw
          (
            start_leased-launched env task now leased_world t named leased-IsConsistent task_found
                is_pending leased_row (running job_id) u lets launched,
            record_status-running env task u (queued_row now t) named u-IsConsistent u_task refl
                job_id now leased_row,
            registered,
            follow_later env now leased_row task strategy later,
          )
          refl

    -- A pending task of a free scheduled job, in a consistent store and under keys that are not
    -- empty, which the registered duplicate strategy lets run, which the framework answers is
    -- running, the store untouched, and whose job's registered creation strategy makes no task
    -- after a start: startTask answers, the task's row is started under the framework's id, and
    -- the job is free again and not out to pasture, also if it was out to pasture before.
    pub start_task_now-running :
        (strategy : TaskCreationStrategy)
        → env.start_job task.pk leased_row.job_name leased_row.job_context launch_world
          ≡ (ok (running job_id), u)
        → Strategies.get j.task_creation_strategy env.task_creation_registry ≡ ok strategy
        → creates_after_start strategy ≡ false
        → TaskEnded task
            (ok tt)
            (started_row (env.current_time u.clock_reads) job_id (queued_row now t))
            (released false none j)
            (start_task_now env task now w)
    unfolding start_task_now
    start_task_now-running strategy launched registered later =
        let ends =
          run_update_in_lease-value env start_task task.schedule (some task.pk) now w j of_job v
            job_found free (λ sched lease_id. start_leased env task now sched) tt false none
            ran_world (leased_run strategy launched registered later)
            (started-IsConsistent env task u (queued_row now t) named u-IsConsistent u_task refl
              job_id)
            ran_job in
        rw (answered ends) (record {
          answers = refl;
          task_after =
              ap (lookup task_model task.pk) ends.tasks_after
              ∙ row_started env task u (queued_row now t) named u-IsConsistent u_task refl job_id;
          job_after = ends.row_after;
        })

    abbrev pub failed_world : Option String → World
    failed_world =
        unrecorded_world env task u (queued_row now t) named u-IsConsistent u_task refl job_id

    leased_failure :
        (result : Option String)
        → env.start_job task.pk leased_row.job_name leased_row.job_context launch_world
          ≡ (ok (failed job_id result), u)
        → start_leased env task now leased_row leased_world ≡ (
          err (
              invalid_task_state
                (started_row (env.current_time u.clock_reads) job_id (queued_row now t))
                TaskState.failed
                queued),
          failed_world result,
        )
    leased_failure result launched =
        rw
          (
            start_leased-launched env task now leased_world t named leased-IsConsistent task_found
                is_pending leased_row (failed job_id result) u lets launched,
            record_status-failed env task u (queued_row now t) named u-IsConsistent u_task refl
                job_id now leased_row result,
          )
          refl

    -- A pending task of a free scheduled job, in a consistent store and under keys that are not
    -- empty, which the registered duplicate strategy lets run and which the framework answers has
    -- failed, the store untouched: startTask is rejected for the state of the task, whose row
    -- stays started, and the job stays leased, in need of repair.
    pub start_task_now-failed :
        (result : Option String)
        → env.start_job task.pk leased_row.job_name leased_row.job_context launch_world
          ≡ (ok (failed job_id result), u)
        → TaskEnded task
            (err (
              invalid_task_state
                (started_row (env.current_time u.clock_reads) job_id (queued_row now t))
                TaskState.failed
                queued))
            (started_row (env.current_time u.clock_reads) job_id (queued_row now t))
            (needs_repair now false none leased_row)
            (start_task_now env task now w)
    unfolding start_task_now
    start_task_now-failed result launched =
        let ends =
          run_update_in_lease-error env start_task task.schedule (some task.pk) now w j of_job v
            job_found free (λ sched lease_id. start_leased env task now sched) _
            (failed_world result) (leased_failure result launched)
            (unrecorded-IsConsistent env task u (queued_row now t) named u-IsConsistent u_task refl
              job_id result)
            (job_at-unrecorded env task u (queued_row now t) named u-IsConsistent u_task refl job_id
                result task.schedule
              ∙ u_job) in
        rw (answered ends) (record {
          answers = refl;
          task_after =
              ap (lookup task_model task.pk) ends.tasks_after
              ∙ row_unrecorded env task u (queued_row now t) named u-IsConsistent u_task refl job_id
                  result;
          job_after = ends.row_after;
        })
