-- ===== src/Controller/Running/Finished.antt =====
-- taskFinished of packages/core/src/lib/controller/combined.ts for a job that completed, from the
-- lease to its end, when the scheduled job is free.
use tern_scheduler.Prelude.{
  String, Bool, true, false, Option, none, some, [], ◌∷◌, ◌++◌, ◌≡◌, ◌≢◌, refl, ap, ◌∙◌,
}
use tern_scheduler.Model.Value.{Date, TaskState, end_task, started, same_task_state}
use tern_scheduler.Model.Value
use tern_scheduler.Model.Schedule.{ScheduledJob}
use tern_scheduler.Model.Task.{Task, set_execution_finished, set_completed_info}
use tern_scheduler.Errors.{invalid_task_state}
use tern_scheduler.Errors.Exec.{ok, err, pure, called}
use tern_scheduler.Db.MemTable.Lookup.{lookup}
use tern_scheduler.Store.Database.{task_model}
use tern_scheduler.Store.Database.Laws.{task_at, job_at, IsConsistent}
use tern_scheduler.Store.Jobs.Leases.{released}
use tern_scheduler.Store.Tasks.{mark_task_completed, get_task_by_execution_job_id}
use tern_scheduler.Store.Tasks.Transitions.{
  moved, granted, refused, moved-IsConsistent, job_at-moved,
}
use tern_scheduler.Strategies
use tern_scheduler.Strategies.{TaskCreationStrategy, after_new, after_start, after_finish}
use tern_scheduler.Controller.World.{World, Env, on_store, completed, task_finished, or_empty}
use tern_scheduler.Controller.Schedule.{exit_value}
use tern_scheduler.Controller.Schedule.Ends.{answered, needs_repair}
use tern_scheduler.Controller.Schedule.Free.{
  held_world, held_row, row_held, held_db-IsConsistent, held_db-tasks, run_update_in_lease-value,
  run_update_in_lease-error,
}
use tern_scheduler.Controller.Running.{
  task_finished_now, finish_reported, finish_leased, follow_finished,
}
use tern_scheduler.Controller.Running.Started.{TaskEnded}

-- The row of a task whose completion was recorded.
abbrev pub completed_row : Date → String → Task → Task
completed_row now info t = record t {
  execution_finished = some now;
  completed_info = some info;
  state = Value.completed;
}

abbrev pub creates_after_finish : TaskCreationStrategy → Bool
creates_after_finish (after_finish create next) = true
creates_after_finish (after_new create) = false
creates_after_finish (after_start create next) = false

follow_none :
    (env : Env) (now : Date) (sched : ScheduledJob) (task : Task) (strategy : TaskCreationStrategy)
    → creates_after_finish strategy ≡ false
    → follow_finished env now sched task strategy ≡ pure (record { value = none; pasture = false })
follow_none env now sched task (after_finish create next) e = cc
follow_none env now sched task (after_new create) e = refl
follow_none env now sched task (after_start create next) e = refl

module _ (env : Env) (task : Task) (now : Date) (w : World) (j : ScheduledJob) (exec_id : String)
    (result : Option String) (named : task.pk ≢ "") (of_job : task.schedule ≢ "")
    (v : IsConsistent w.db) (found : task_at task.pk w.db ≡ some task)
    (executed : on_store (get_task_by_execution_job_id exec_id) w ≡ (ok (some task), w))
    (job_found : job_at task.schedule w.db ≡ some j) (free : j.update_state ≡ none) where
  abbrev leased_world : World
  leased_world =
      held_world env end_task task.schedule (some task.pk) now w j of_job v job_found free

  abbrev pub ending_row : ScheduledJob
  ending_row = held_row env end_task task.schedule (some task.pk) now w j of_job v job_found free

  leased-IsConsistent : IsConsistent leased_world.db
  leased-IsConsistent =
      held_db-IsConsistent env end_task task.schedule (some task.pk) now w j of_job v job_found free

  task_found : task_at task.pk leased_world.db ≡ some task
  task_found =
      ap (lookup task_model task.pk)
        (held_db-tasks env end_task task.schedule (some task.pk) now w j of_job v job_found free)
      ∙ found

  abbrev marked_world : World
  marked_world = record leased_world {
    db =
        moved task.pk named leased_world.db leased-IsConsistent started Value.completed
          (set_execution_finished (some now) ∷ set_completed_info (some (or_empty result)) ∷ [])
          task task_found;
  }

  marked-IsConsistent : IsConsistent marked_world.db
  marked-IsConsistent =
      moved-IsConsistent task.pk named leased_world.db leased-IsConsistent started Value.completed _
        task task_found

  marked_job : job_at task.schedule marked_world.db ≡ some ending_row
  marked_job =
      job_at-moved task.pk named leased_world.db leased-IsConsistent started Value.completed _ task
        task_found task.schedule
      ∙ row_held env end_task task.schedule (some task.pk) now w j of_job v job_found free

  module _ (is_started : task.state ≡ started) where
    completion :
        on_store (mark_task_completed task now (or_empty result)) leased_world
        ≡ (ok tt, marked_world)
    unfolding mark_task_completed on_store
    completion =
        rw
          (granted task.pk named leased_world.db leased-IsConsistent started Value.completed
            (set_execution_finished (some now) ∷ set_completed_info (some (or_empty result)) ∷ [])
            task task_found (rw is_started)).0

    row_completed :
        task_at task.pk marked_world.db ≡ some (completed_row now (or_empty result) task)
    row_completed =
        (granted task.pk named leased_world.db leased-IsConsistent started Value.completed
          (set_execution_finished (some now) ∷ set_completed_info (some (or_empty result)) ∷ [])
          task task_found (rw is_started)).1

    abbrev ended_world : World
    ended_world = record marked_world { events = marked_world.events ++ task_finished task ∷ [] }

    ran :
        (strategy : TaskCreationStrategy)
        → Strategies.get j.task_creation_strategy env.task_creation_registry ≡ ok strategy
        → creates_after_finish strategy ≡ false
        → finish_leased env task now (completed exec_id result) ending_row leased_world
          ≡ (ok (exit_value tt false none), ended_world)
    unfolding finish_leased
    ran strategy registered none_after =
        rw (completion, registered, follow_none env now ending_row task strategy none_after) refl

    -- The report that a job completed, in a consistent store and under keys that are not empty,
    -- when the store finds one task for it, which is started, its scheduled job is free, and the
    -- job's registered creation strategy makes no task after a finish: taskFinished answers, the
    -- task's row is completed with the result, and the job is free again and not out to pasture,
    -- also if it was out to pasture before.
    pub task_finished_now-completed :
        (strategy : TaskCreationStrategy)
        → Strategies.get j.task_creation_strategy env.task_creation_registry ≡ ok strategy
        → creates_after_finish strategy ≡ false
        → TaskEnded task
            (ok tt)
            (completed_row now (or_empty result) task)
            (released false none j)
            (called (task_finished_now env exec_id (completed exec_id result) now) w)
    unfolding task_finished_now finish_reported
    task_finished_now-completed strategy registered none_after =
        let ends =
          run_update_in_lease-value env end_task task.schedule (some task.pk) now w j of_job v
            job_found free
            (λ sched lease_id. finish_leased env task now (completed exec_id result) sched) tt false
            none ended_world (ran strategy registered none_after) marked-IsConsistent marked_job in
        rw (executed, answered ends)
          (record {
            answers = refl;
            task_after = ap (lookup task_model task.pk) ends.tasks_after ∙ row_completed;
            job_after = ends.row_after;
          })

  kept :
      same_task_state task.state started ≡ false
      → (finish_leased env task now (completed exec_id result) ending_row leased_world
          ≡ (err (invalid_task_state task Value.completed started), marked_world))
        × (task_at task.pk marked_world.db ≡ some task)
  unfolding finish_leased mark_task_completed on_store
  kept not_started =
      let r =
        refused task.pk named leased_world.db leased-IsConsistent started Value.completed
          (set_execution_finished (some now) ∷ set_completed_info (some (or_empty result)) ∷ [])
          task task_found not_started in
      (rw (r.0) refl, r.1)

  -- The report that a job completed, in a consistent store and under keys that are not empty, when
  -- the store finds one task for it, which is not started, and its scheduled job is free:
  -- taskFinished answers, the task's row stays, but the job stays leased, in need of repair.
  pub task_finished_now-repeated :
      same_task_state task.state started ≡ false
      → TaskEnded task
          (ok tt)
          task
          (needs_repair now false none ending_row)
          (called (task_finished_now env exec_id (completed exec_id result) now) w)
  unfolding task_finished_now finish_reported
  task_finished_now-repeated not_started =
      let ends =
        run_update_in_lease-error env end_task task.schedule (some task.pk) now w j of_job v
          job_found free
          (λ sched lease_id. finish_leased env task now (completed exec_id result) sched) _
          marked_world (kept not_started).0 marked-IsConsistent marked_job in
      rw (executed, answered ends)
        (record {
          answers = refl;
          task_after = ap (lookup task_model task.pk) ends.tasks_after ∙ (kept not_started).1;
          job_after = ends.row_after;
        })
