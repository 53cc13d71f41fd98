-- ===== src/Controller/Combined/Created.antt =====
-- createScheduledJob of packages/core/src/lib/controller/combined.ts with new keys.
use tern_scheduler.Prelude.{
  suc, String, false, none, some, [], ◌∷◌, ◌++◌, ◌≡◌, refl, same_refl, ap, ◌∙◌, pos, ne_of_same,
}
use tern_scheduler.Model.Value.{Date}
use tern_scheduler.Model.Schedule.{ScheduledJob}
use tern_scheduler.Model.Task.{Task}
use tern_scheduler.Errors.Exec.{Result, ok}
use tern_scheduler.Db.MemTable.Lookup.{lookup}
use tern_scheduler.Store.Database.{create_job, create_task, update_date, job_model, task_model}
use tern_scheduler.Store.Database.Laws.{
  job_at, task_at, IsConsistent, create_job-IsConsistent, create_task-IsConsistent,
}
use tern_scheduler.Store.Database.Fresh.{IsFresh, create_job-fresh, create_task-fresh}
use tern_scheduler.Store.Jobs.{add_scheduled_job_model}
use tern_scheduler.Store.Jobs.Leases.{released}
use tern_scheduler.Store.Tasks.{add_task}
use tern_scheduler.Strategies
use tern_scheduler.Strategies.{TaskCreationStrategy, create_from_new_schedule}
use tern_scheduler.Controller.World.{World, Env, on_store, task_created}
use tern_scheduler.Controller.Schedule.{
  NewScheduledJob, new_model, create_scheduled_job_alone, exit_value,
}
use tern_scheduler.Controller.Schedule.Ends.{answered, finish_lease-value}
use tern_scheduler.Controller.Combined.{new_task, create_first_task, create_scheduled_job}

-- How createScheduledJob left the world: its answer, the new job's row, and its task's row.
pub record Created (job : ScheduledJob) (task : Task) (after : Result String × World) : Type 0 where
  pub answers : after.0 ≡ ok job.pk
  pub job_after : job_at job.pk after.1.db ≡ some job
  pub task_after : task_at task.pk after.1.db ≡ some task

module _ (env : Env) (job : NewScheduledJob) (now : Date) (w : World) (v : IsConsistent w.db) where
  abbrev pub sched_pk : String
  sched_pk = env.create_primary_key w.keys_made

  abbrev pub task_pk : String
  task_pk = env.create_primary_key (suc w.keys_made)

  abbrev pub owner : String
  owner = env.lease_owner w.leases_made

  abbrev pub model : ScheduledJob
  model = new_model job now sched_pk task_pk

  abbrev row : ScheduledJob
  row = record model {
    lease_owner = some owner;
    lease_expires = some (update_date now (pos env.lease_time_seconds));
  }

  -- The world in which the first task is made.
  abbrev added : World
  added = record w {
    db = (create_job row w.db).1;
    keys_made = suc (suc w.keys_made);
    leases_made = suc w.leases_made;
  }

  module _ (at : Date) (strategy : TaskCreationStrategy)
      (registered : Strategies.get job.task_creation_strategy env.task_creation_registry
        ≡ ok strategy)
      (dated : create_from_new_schedule strategy now model ≡ ok at)
      (new_job : IsFresh sched_pk w.db.jobs.pks) (new_key : IsFresh task_pk w.db.tasks.pks) where
    abbrev task : Task
    task = new_task task_pk sched_pk now at

    abbrev both : World
    both = record added {
      db = (create_task task added.db).1;
      events = w.events ++ task_created task ∷ [];
    }

    job_added :
        on_store
          (add_scheduled_job_model model owner now env.lease_time_seconds)
          (record w { keys_made = suc (suc w.keys_made); leases_made = suc w.leases_made })
        ≡ (ok tt, added)
    unfolding on_store add_scheduled_job_model new_model
    job_added = rw ((create_job-fresh row w.db v new_job).0)

    first_task :
        create_first_task env job now model task_pk added
        ≡ (ok (exit_value sched_pk false none), both)
    unfolding create_first_task add_task on_store new_model create_job
    first_task = rw (
      registered,
      dated,
      (create_task-fresh task added.db (create_job-IsConsistent w.db v row) new_key).0,
    )

    both-IsConsistent : IsConsistent both.db
    both-IsConsistent = create_task-IsConsistent added.db (create_job-IsConsistent w.db v row) task

    both_job : job_at sched_pk both.db ≡ some row
    unfolding new_model create_job
    both_job =
        ap (lookup job_model sched_pk)
          ((create_task-fresh task added.db (create_job-IsConsistent w.db v row) new_key).2)
        ∙ (create_job-fresh row w.db v new_job).1

    both_task : task_at task_pk both.db ≡ some task
    unfolding create_job
    both_task = (create_task-fresh task added.db (create_job-IsConsistent w.db v row) new_key).1

    -- A scheduled job that is created in a consistent store, under made keys that are not empty
    -- and not taken, with a registered strategy that dates its first task: the answer is the job's
    -- key; the job is stored as it was described, free and, with every kind of strategy, also one
    -- for after the creation only (`new`), not out to pasture; and its first task is stored as
    -- pending at that date.
    pub create_scheduled_job-fresh :
        Created
          (released false none model)
          (new_task task_pk sched_pk now at)
          (create_scheduled_job env job now w)
    unfolding create_scheduled_job create_scheduled_job_alone new_model
    create_scheduled_job-fresh =
        let ends =
          finish_lease-value model owner now both row (ne_of_same sched_pk "" new_job.0)
            both-IsConsistent both_job (same_refl owner) sched_pk false none in
        rw (job_added, first_task, answered ends)
          (record {
            answers = refl;
            job_after = ends.row_after;
            task_after = ap (lookup task_model task_pk) ends.tasks_after ∙ both_task;
          })
