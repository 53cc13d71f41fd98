-- ===== src/Controller/Running/Disable.antt =====
-- disableSchedule of packages/core/src/lib/controller/combined.ts.
use tern_scheduler.Prelude.{String, true, Option, none, some, ◌≡◌, ◌≢◌, refl, arith, ◌∙◌, ap}
use tern_scheduler.Model.Value.{Date, ScheduleState}
use tern_scheduler.Model.Schedule.{ScheduledJob}
use tern_scheduler.Errors.Exec.{ok, pure}
use tern_scheduler.Store.Database.Laws.{job_at, IsConsistent}
use tern_scheduler.Store.Jobs.Leases.{released}
use tern_scheduler.Controller.World.{World, Env, or_null}
use tern_scheduler.Controller.Schedule.{exit_value}
use tern_scheduler.Controller.Schedule.Ends.{Ended}
use tern_scheduler.Controller.Schedule.Free.{
  run_update_in_lease-value, row_held, held_db-IsConsistent, held_db-tasks,
}
use tern_scheduler.Controller.Running.{disable_schedule}

or_null-idempotent : (s : Option String) → or_null (or_null s) ≡ or_null s
or_null-idempotent none = refl
or_null-idempotent (some s) = ground arith

-- Disabling a scheduled job that no one is updating, in a consistent store and under a key that is
-- not empty, succeeds: its row is out to pasture with the reason, and free again; the tasks stay.
pub disable_schedule-free :
    (env : Env) (schedule : ScheduledJob) (reason : Option String) (now : Date) (w : World)
    (j : ScheduledJob)
    → schedule.pk ≢ ""
    → IsConsistent w.db
    → job_at schedule.pk w.db ≡ some j
    → j.update_state ≡ none
    → Ended
        (ok tt)
        schedule.pk
        (released true (or_null reason) j)
        w.db.tasks
        (disable_schedule env schedule reason now w)
unfolding disable_schedule
disable_schedule-free env schedule reason now w j named v found free =
    let ends =
      run_update_in_lease-value env ScheduleState.pasture schedule.pk none now w j named v found
        free (λ sched lease_id. pure (exit_value tt true (or_null reason))) tt true (or_null reason)
        _ refl
        (held_db-IsConsistent env ScheduleState.pasture schedule.pk none now w j named v found free)
        (row_held env ScheduleState.pasture schedule.pk none now w j named v found free) in
    record {
      answers = ends.answers;
      row_after = ends.row_after ∙ ap (λ r. some (released true r j)) (or_null-idempotent reason);
      tasks_after =
          ends.tasks_after
          ∙ held_db-tasks env ScheduleState.pasture schedule.pk none now w j named v found free;
    }
