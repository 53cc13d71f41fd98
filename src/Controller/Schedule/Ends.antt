-- ===== src/Controller/Schedule/Ends.antt =====
-- How an operation under a lease ends in packages/core/src/lib/controller/schedule.ts: what it
-- answers, and the row of the scheduled job.
use tern_scheduler.Prelude.{
  String, Bool, true, false, Option, some, List, [], ◌∷◌, ◌++◌, if◌then◌else◌, ◌≡◌, ◌≢◌, refl,
  arith, ap, ◌∙◌, same_refl,
}
use tern_scheduler.Model.Value.{Date}
use tern_scheduler.Model.Schedule.{ScheduledJob}
use tern_scheduler.Errors.{Error, is_invalid_schedule_definition}
use tern_scheduler.Errors.Exec.{Result, ok, err}
use tern_scheduler.Db.MemTable.{MemTable}
use tern_scheduler.Store.Database.{task_model}
use tern_scheduler.Store.Database.Laws.{job_at, IsConsistent}
use tern_scheduler.Store.Jobs.{release_scheduled_job_lease, mark_leased_scheduled_job_needs_repair}
use tern_scheduler.Store.Jobs.Leases.{
  owned_by, released, release_scheduled_job_lease-Outcome,
  mark_leased_scheduled_job_needs_repair-Outcome,
}
use tern_scheduler.Controller.World.{World, Event, on_store, emit_if, scheduled_job_disabled}
use tern_scheduler.Controller.Schedule.{
  exit_value, exit_error, pasture_reason, end_lease, finish_lease,
}

-- No error passes the test by which the controller recognises an InvalidScheduleDefinitionError.
pub never_invalid_definition : (e : Error) → is_invalid_schedule_definition e ≡ false
never_invalid_definition e = ground arith

-- The holder's row when an operation under the lease has ended with an error.
abbrev pub needs_repair : Date → Bool → Option String → ScheduledJob → ScheduledJob
needs_repair now pasture reason j = record j {
  lease_expires = some now;
  pasture = pasture;
  pasture_reason = reason;
}

-- How an operation under the lease of `pk` left the world: its answer, the row, and the tasks.
pub record Ended {T : Type 0} (answer : Result T) (pk : String) (row : ScheduledJob)
    (tasks : MemTable task_model) (after : Result T × World) : Type 0 where
  pub answers : after.0 ≡ answer
  pub row_after : job_at pk after.1.db ≡ some row
  pub tasks_after : after.1.db.tasks ≡ tasks

-- The events after a message that is sent or not.
abbrev sent : Bool → Event → World → World
sent b e w = record w { events = if b then w.events ++ e ∷ [] else w.events }

emit_if_lem : (b : Bool) (e : Event) (w : World) → emit_if b e w ≡ (ok tt, sent b e w)
emit_if_lem true e w = refl
emit_if_lem false e w = refl

-- A step that has ended so is the pair of its answer and its world.
pub answered :
    {T : Type 0} {answer : Result T} {pk : String} {row : ScheduledJob}
    {tasks : MemTable task_model} {after : Result T × World}
    → Ended answer pk row tasks after
    → after ≡ (answer, after.1)
answered {after = after} g = ap (λ r. (r, after.1)) g.answers

module _ (sched : ScheduledJob) (owner : String) (now : Date) (w : World) (j : ScheduledJob)
    (named : sched.pk ≢ "") (v : IsConsistent w.db) (found : job_at sched.pk w.db ≡ some j)
    (held : owned_by owner j ≡ true) where
  release_granted :
      (events : List Event) (pasture : Bool) (reason : Option String)
      → Ended (ok tt) sched.pk (released pasture reason j) w.db.tasks (
          on_store
            (release_scheduled_job_lease owner sched.pk (some pasture) reason)
            (record w { events = events }))
  unfolding on_store
  release_granted events pasture reason =
      let out = release_scheduled_job_lease-Outcome sched.pk named w.db v owner pasture reason in
      record {
        answers = out.answers ∙ rw (found, held);
        row_after = out.rows sched.pk ∙ rw (same_refl sched.pk, found) (rw held);
        tasks_after = out.tasks;
      }

  mark_granted :
      (events : List Event) (pasture : Bool) (reason : Option String)
      → Ended (ok tt) sched.pk (needs_repair now pasture reason j) w.db.tasks (
          on_store
            (mark_leased_scheduled_job_needs_repair sched.pk owner now pasture reason)
            (record w { events = events }))
  unfolding on_store
  mark_granted events pasture reason =
      let out =
        mark_leased_scheduled_job_needs_repair-Outcome sched.pk named w.db v owner now pasture
          reason in
      record {
        answers = out.answers ∙ rw (found, held);
        row_after = out.rows sched.pk ∙ rw (same_refl sched.pk, found) (rw held);
        tasks_after = out.tasks;
      }

  -- An operation that ends with a value answers with it, and the job is free again.
  pub finish_lease-value :
      {T : Type 0} (value : T) (pasture : Bool) (reason : Option String)
      → Ended
          (ok value)
          sched.pk
          (released pasture (pasture_reason pasture reason) j)
          w.db.tasks
          (finish_lease sched owner now (exit_value value pasture reason) w)
  unfolding finish_lease end_lease
  finish_lease-value value pasture reason =
      let g =
        release_granted (sent pasture (scheduled_job_disabled sched) w).events pasture
          (pasture_reason pasture reason) in
      rw (emit_if_lem pasture (scheduled_job_disabled sched) w, answered g)
        (record { answers = refl; row_after = g.row_after; tasks_after = g.tasks_after })

  -- An operation that ends with an error is rejected with it, and the job stays leased and in need
  -- of repair; this is so for every error.
  pub finish_lease-error :
      (T : Type 0) (e : Error) (pasture : Bool) (reason : Option String)
      → Ended {T = T}
          (err e)
          sched.pk
          (needs_repair now pasture (pasture_reason pasture reason) j)
          w.db.tasks
          (finish_lease sched owner now (exit_error e pasture reason) w)
  unfolding finish_lease end_lease
  finish_lease-error T e pasture reason =
      let g =
        mark_granted (sent pasture (scheduled_job_disabled sched) w).events pasture
          (pasture_reason pasture reason) in
      rw
        (
          never_invalid_definition e,
          emit_if_lem pasture (scheduled_job_disabled sched) w,
          answered g,
        )
        (record { answers = refl; row_after = g.row_after; tasks_after = g.tasks_after })
