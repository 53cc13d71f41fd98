-- ===== src/Controller/Running/Refused.antt =====
-- startTask of packages/core/src/lib/controller/combined.ts while another process holds the lease of
-- the scheduled job, through all the retries of runUpdateInLease (controller/schedule.ts).
use tern_scheduler.Prelude.{
  ℕ, suc, String, Option, some, List, [], ◌∷◌, ◌≡◌, ◌≢◌, refl, ap, same_refl, ◌∙◌,
}
use tern_scheduler.Model.Value.{Date, ScheduleState, start_task}
use tern_scheduler.Model.Schedule.{ScheduledJob}
use tern_scheduler.Model.Task.{Task}
use tern_scheduler.Errors.{lease_not_obtained}
use tern_scheduler.Errors.Exec.{Result, err, Exec}
use tern_scheduler.Db.MemTable.Lookup.{lookup}
use tern_scheduler.Store.Database.{task_model}
use tern_scheduler.Store.Database.Laws.{job_at, task_at, IsConsistent}
use tern_scheduler.Store.Jobs.{lease_scheduled_job}
use tern_scheduler.Store.Jobs.Leases.{lease_scheduled_job-Outcome}
use tern_scheduler.Controller.World.{World, Env, on_store, emit, task_start_no_lease}
use tern_scheduler.Controller.Schedule.{lease_with_retry, run_update_in_lease}
use tern_scheduler.Controller.Running.{start_task_now}

-- A world in which the job's row is `j` and the task's row is `t`.
pub record Rows (job_pk task_pk : String) (j : ScheduledJob) (t : Task) (w : World) : Type 0 where
  pub consistent : IsConsistent w.db
  pub job : job_at job_pk w.db ≡ some j
  pub task : task_at task_pk w.db ≡ some t

-- An attempt that was refused for the holder of `j`.
pub record Denied (id job_pk task_pk : String) (j : ScheduledJob) (t : Task)
    (after : Result (Unit {0}) × World) : Type 0 where
  pub answers : after.0 ≡ err (lease_not_obtained id j j.lease_owner j.lease_expires)
  pub rows : Rows job_pk task_pk j t after.1

denied :
    {id job_pk task_pk : String} {j : ScheduledJob} {t : Task} {after : Result (Unit {0}) × World}
    → Denied id job_pk task_pk j t after
    → after ≡ (err (lease_not_obtained id j j.lease_owner j.lease_expires), after.1)
denied {after = after} d = ap (λ r. (r, after.1)) d.answers

module _ (env : Env) (job_pk task_pk : String) (j : ScheduledJob) (t : Task) (s : ScheduleState)
    (named : job_pk ≢ "") (busy : j.update_state ≡ some s) (op : ScheduleState) (id : String)
    (upd : Option String) (now : Date) where
  abbrev attempt : Exec World (Unit {0})
  attempt = on_store (lease_scheduled_job job_pk op upd id now env.lease_time_seconds)

  attempt-Denied :
      (w : World) → Rows job_pk task_pk j t w → Denied id job_pk task_pk j t (attempt w)
  unfolding on_store
  attempt-Denied w r =
      let out =
        lease_scheduled_job-Outcome job_pk named w.db r.consistent op upd id now
          env.lease_time_seconds in
      record {
        answers = out.answers ∙ simp (r.job, busy);
        rows = record {
          consistent = out.consistent;
          job = out.rows job_pk ∙ rw (same_refl job_pk, r.job) (rw busy);
          task = ap (lookup task_model task_pk) out.tasks ∙ r.task;
        };
      }

  -- While each wait finds the job still held, every attempt is refused.
  pub lease_with_retry-Denied :
      ((n : ℕ) (u : World) → Rows job_pk task_pk j t u → Rows job_pk task_pk j t (env.wait n u))
      → (delays : List ℕ) (w : World) → Rows job_pk task_pk j t w
      → Denied id job_pk task_pk j t (lease_with_retry env attempt delays w)
  unfolding lease_with_retry
  lease_with_retry-Denied waits [] w r = attempt-Denied w r
  lease_with_retry-Denied waits (d ∷ ds) w r = rw (denied (attempt-Denied w r)) (
      lease_with_retry-Denied waits ds (env.wait d (attempt w).1)
        (waits d _ (attempt-Denied w r).rows))

-- How a start without the lease ended: it answered, its last act was to say so, and neither the
-- job nor the task has changed.
pub record StartedNothing (task : Task) (j : ScheduledJob) (t : Task)
    (after : Result (Unit {0}) × World) : Type 0 where
  pub before : World
  pub ends : after ≡ emit (task_start_no_lease task j.lease_owner) before
  pub rows : Rows task.schedule task.pk j t before

-- A job that is held, in a consistent store and under a key that is not empty, while no wait
-- changes its row or the task's: startTask answers; it leaves both rows as they were, and ends
-- with the message that the lease was not obtained.
pub start_task_now-busy :
    (env : Env) (task : Task) (now : Date) (w : World) (j : ScheduledJob) (t : Task)
    (s : ScheduleState)
    → task.schedule ≢ ""
    → j.update_state ≡ some s
    → ((n : ℕ) (u : World)
        → Rows task.schedule task.pk j t u
        → Rows task.schedule task.pk j t (env.wait n u))
    → Rows task.schedule task.pk j t w
    → StartedNothing task j t (start_task_now env task now w)
unfolding start_task_now run_update_in_lease
start_task_now-busy env task now w j t s named busy waits r =
    let d =
      lease_with_retry-Denied env task.schedule task.pk j t s named busy start_task
        (env.lease_owner w.leases_made) (some task.pk) now waits env.retry_seconds_delay
        (record w { leases_made = suc w.leases_made })
        (record { consistent = r.consistent; job = r.job; task = r.task }) in
    rw (denied d) (record { before = _; ends = refl; rows = d.rows })
