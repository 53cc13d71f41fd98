-- ===== src/Controller/Running/NotStarted.antt =====
-- startTask of packages/core/src/lib/controller/combined.ts when the job execution framework answers
-- that the job did not start.
use tern_scheduler.Prelude.{
  suc, String, false, Option, none, some, [], ◌∷◌, ◌≡◌, ◌≢◌, refl, ap, ◌∙◌,
}
use tern_scheduler.Model.Value.{Date, start_task, pending, queued, start_error}
use tern_scheduler.Model.Schedule.{ScheduledJob}
use tern_scheduler.Model.Task.{Task, set_execution_started, set_completed_info}
use tern_scheduler.Errors.Exec.{ok}
use tern_scheduler.Db.MemTable.Lookup.{lookup}
use tern_scheduler.Store.Database.{task_model}
use tern_scheduler.Store.Database.Laws.{task_at, job_at, IsConsistent}
use tern_scheduler.Store.Jobs.Leases.{released}
use tern_scheduler.Store.Tasks.{mark_task_start_failed}
use tern_scheduler.Store.Tasks.Transitions.{moved, granted, moved-IsConsistent, job_at-moved}
use tern_scheduler.Controller.World.{World, Env, on_store, or_empty, did_not_start}
use tern_scheduler.Controller.Schedule.{exit_value}
use tern_scheduler.Controller.Schedule.Ends.{answered}
use tern_scheduler.Controller.Schedule.Free.{run_update_in_lease-value}
use tern_scheduler.Controller.Running.{start_task_now, start_leased, record_status}
use tern_scheduler.Controller.Running.Start.{LetsRun, queued_row, start_leased-launched}
use tern_scheduler.Controller.Running.Started.{
  TaskEnded, leased_row, leased_world, launch_world, leased-IsConsistent, task_found,
  u-IsConsistent, u_task, u_job,
}

-- The row of a task whose start was refused.
abbrev pub start_error_row : Date → String → Task → Task
start_error_row at info t = record t {
  execution_started = some at;
  completed_info = some info;
  state = start_error;
}

module _ (env : Env) (task : Task) (now : Date) (w : World) (t : Task) (j : ScheduledJob)
    (named : task.pk ≢ "") (of_job : task.schedule ≢ "") (v : IsConsistent w.db)
    (found : task_at task.pk w.db ≡ some t) (is_pending : t.state ≡ pending)
    (job_found : job_at task.schedule w.db ≡ some j) (free : j.update_state ≡ none)
    (result : Option String) (u : World)
    (same_db : u.db
      ≡ (launch_world env task now w t j named of_job v found is_pending job_found free).db)
    (lets : LetsRun env
      (leased_row env task now w t j named of_job v found is_pending job_found free)
      task) where
  abbrev leased : ScheduledJob
  leased = leased_row env task now w t j named of_job v found is_pending job_found free

  u_ok : IsConsistent u.db
  u_ok =
      u-IsConsistent env task now w t j named of_job v found is_pending job_found free "" u same_db
        lets

  row_queued : task_at task.pk u.db ≡ some (queued_row now t)
  row_queued =
      u_task env task now w t j named of_job v found is_pending job_found free "" u same_db lets

  abbrev marked : World
  marked = record u {
    db =
        moved task.pk named u.db u_ok queued start_error
          (set_execution_started (some (env.current_time u.clock_reads))
            ∷ set_completed_info (some (or_empty result))
            ∷ [])
          (queued_row now t) row_queued;
    clock_reads = suc u.clock_reads;
  }

  marking :
      on_store
        (mark_task_start_failed task (env.current_time u.clock_reads) (or_empty result))
        (record u { clock_reads = suc u.clock_reads })
      ≡ (ok tt, marked)
  unfolding mark_task_start_failed on_store
  marking =
      rw
        (granted task.pk named u.db u_ok queued start_error
          (set_execution_started (some (env.current_time u.clock_reads))
            ∷ set_completed_info (some (or_empty result))
            ∷ [])
          (queued_row now t) row_queued refl).0

  row_marked :
      task_at task.pk marked.db
      ≡ some (start_error_row (env.current_time u.clock_reads) (or_empty result) (queued_row now t))
  row_marked =
      (granted task.pk named u.db u_ok queued start_error
        (set_execution_started (some (env.current_time u.clock_reads))
          ∷ set_completed_info (some (or_empty result))
          ∷ [])
        (queued_row now t) row_queued refl).1

  job_kept : job_at task.schedule marked.db ≡ some leased
  job_kept =
      job_at-moved task.pk named u.db u_ok queued start_error _ (queued_row now t) row_queued
        task.schedule
      ∙ u_job env task now w t j named of_job v found is_pending job_found free "" u same_db lets

  module _
      (launched : env.start_job task.pk leased.job_name leased.job_context
          (launch_world env task now w t j named of_job v found is_pending job_found free)
        ≡ (ok (did_not_start result), u)) where
    ran :
        start_leased env task now leased
          (leased_world env task now w t j named of_job v found is_pending job_found free)
        ≡ (ok (exit_value tt false none), marked)
    unfolding record_status
    ran =
        rw
          (
            start_leased-launched env task now
                (leased_world env task now w t j named of_job v found is_pending job_found free) t
                named
                (leased-IsConsistent env task now w t j named of_job v found is_pending job_found
                  free)
                (task_found env task now w t j named of_job v found is_pending job_found free)
                is_pending leased (did_not_start result) u lets launched,
            marking,
          )
          refl

    -- A pending task of a free scheduled job, in a consistent store and under keys that are not
    -- empty, which the registered duplicate strategy lets run and which the framework answers did
    -- not start, the store untouched: startTask answers, the task's row is a start error with the
    -- framework's reason, and the job is free again and not out to pasture.
    pub start_task_now-did_not_start :
        TaskEnded task
          (ok tt)
          (start_error_row (env.current_time u.clock_reads) (or_empty result) (queued_row now t))
          (released false none j)
          (start_task_now env task now w)
    unfolding start_task_now
    start_task_now-did_not_start =
        let ends =
          run_update_in_lease-value env start_task task.schedule (some task.pk) now w j of_job v
            job_found free (λ sched lease_id. start_leased env task now sched) tt false none marked
            ran
            (moved-IsConsistent task.pk named u.db u_ok queued start_error _ (queued_row now t)
              row_queued)
            job_kept in
        rw (answered ends) (record {
          answers = refl;
          task_after = ap (lookup task_model task.pk) ends.tasks_after ∙ row_marked;
          job_after = ends.row_after;
        })
