-- ===== src/Controller/Running/Statuses.antt =====
-- What startTask (packages/core/src/lib/controller/combined.ts) makes of the answer of the job
-- execution framework, for a task whose row is queued.
use tern_scheduler.Prelude.{suc, String, Option, some, [], ◌∷◌, ◌++◌, ◌≡◌, ◌≢◌, refl, ◌∙◌}
use tern_scheduler.Model.Value.{Date, TaskState, queued, started}
use tern_scheduler.Model.Schedule.{ScheduledJob}
use tern_scheduler.Model.Task.{
  Task, set_execution_started, set_execution_job_id, set_execution_finished, set_completed_info,
}
use tern_scheduler.Errors.{invalid_task_state}
use tern_scheduler.Errors.Exec.{ok, err}
use tern_scheduler.Store.Database.Laws.{task_at, job_at, IsConsistent}
use tern_scheduler.Store.Tasks.{mark_task_started, mark_task_failed}
use tern_scheduler.Store.Tasks.Transitions.{
  moved, granted, refused, moved-IsConsistent, job_at-moved,
}
use tern_scheduler.Controller.World.{World, Env, on_store, or_empty, running, failed, task_running}
use tern_scheduler.Controller.Running.{record_status, keep_task}

-- The row of a task whose start was recorded.
abbrev pub started_row : Date → String → Task → Task
started_row at job_id t = record t {
  execution_started = some at;
  execution_job_id = some job_id;
  state = started;
}

module _ (env : Env) (task : Task) (u : World) (t : Task) (named : task.pk ≢ "")
    (v : IsConsistent u.db) (found : task_at task.pk u.db ≡ some t) (is_queued : t.state ≡ queued)
    (job_id : String) where
  abbrev pub started_at : Date
  started_at = env.current_time u.clock_reads

  abbrev pub started_world : World
  started_world = record u {
    db =
        moved task.pk named u.db v queued started
          (set_execution_started (some started_at) ∷ set_execution_job_id (some job_id) ∷ []) t
          found;
    clock_reads = suc u.clock_reads;
  }

  marked :
      on_store
        (mark_task_started task started_at job_id)
        (record u { clock_reads = suc u.clock_reads })
      ≡ (ok tt, started_world)
  unfolding mark_task_started on_store
  marked =
      rw
        (granted task.pk named u.db v queued started
          (set_execution_started (some started_at) ∷ set_execution_job_id (some job_id) ∷ []) t
          found (rw is_queued)).0

  pub row_started : task_at task.pk started_world.db ≡ some (started_row started_at job_id t)
  row_started =
      (granted task.pk named u.db v queued started
        (set_execution_started (some started_at) ∷ set_execution_job_id (some job_id) ∷ []) t found
        (rw is_queued)).1

  pub started-IsConsistent : IsConsistent started_world.db
  started-IsConsistent = moved-IsConsistent task.pk named u.db v queued started _ t found

  pub job_at-started : (k : String) → job_at k started_world.db ≡ job_at k u.db
  job_at-started = job_at-moved task.pk named u.db v queued started _ t found

  pub record_status-running :
      (now : Date) (sched : ScheduledJob)
      → record_status env now sched task (running job_id) u ≡ (
        ok (keep_task task),
        record started_world { events = u.events ++ task_running task job_id ∷ [] },
      )
  unfolding record_status
  record_status-running now sched = rw marked

  -- The world after a task that failed at once: its failure could not be recorded.
  abbrev pub unrecorded_world : Option String → World
  unrecorded_world result = record u {
    db =
        moved task.pk named started_world.db started-IsConsistent queued TaskState.failed
          (set_execution_finished (some (env.current_time (suc u.clock_reads)))
            ∷ set_completed_info (some (or_empty result))
            ∷ [])
          (started_row started_at job_id t) row_started;
    clock_reads = suc (suc u.clock_reads);
  }

  refused_failure :
      (result : Option String)
      → on_store
          (mark_task_failed task
            (env.current_time (suc u.clock_reads))
            queued
            TaskState.failed
            (or_empty result))
          (record started_world { clock_reads = suc (suc u.clock_reads) })
        ≡ (
          err (invalid_task_state (started_row started_at job_id t) TaskState.failed queued),
          unrecorded_world result,
        )
  unfolding mark_task_failed on_store
  refused_failure result =
      rw
        (refused task.pk named started_world.db started-IsConsistent queued TaskState.failed
          (set_execution_finished (some (env.current_time (suc u.clock_reads)))
            ∷ set_completed_info (some (or_empty result))
            ∷ [])
          (started_row started_at job_id t) row_started refl).0

  pub record_status-failed :
      (now : Date) (sched : ScheduledJob) (result : Option String)
      → record_status env now sched task (failed job_id result) u ≡ (
        err (invalid_task_state (started_row started_at job_id t) TaskState.failed queued),
        unrecorded_world result,
      )
  unfolding record_status
  record_status-failed now sched result = rw (marked, refused_failure result)

  pub row_unrecorded :
      (result : Option String)
      → task_at task.pk (unrecorded_world result).db ≡ some (started_row started_at job_id t)
  row_unrecorded result =
      (refused task.pk named started_world.db started-IsConsistent queued TaskState.failed _
        (started_row started_at job_id t) row_started refl).1

  pub unrecorded-IsConsistent : (result : Option String) → IsConsistent (unrecorded_world result).db
  unrecorded-IsConsistent result =
      moved-IsConsistent task.pk named started_world.db started-IsConsistent queued TaskState.failed
        _ (started_row started_at job_id t) row_started

  pub job_at-unrecorded :
      (result : Option String) (k : String) → job_at k (unrecorded_world result).db ≡ job_at k u.db
  job_at-unrecorded result k =
      job_at-moved task.pk named started_world.db started-IsConsistent queued TaskState.failed _
        (started_row started_at job_id t) row_started k
      ∙ job_at-started k
