-- ===== src/Controller/Repair/Unfinished.antt =====
-- repairExpiredSchedule of packages/core/src/lib/controller/repair.ts for the states whose repair is
-- not written yet.
use tern_scheduler.Prelude.{
  suc, String, Bool, true, false, none, some, ◌≡◌, ◌≢◌, refl, ◌∙◌, same_refl, pos, ltb_ℤ,
}
use tern_scheduler.Model.Value.{
  Date, ScheduleState, add_task, start_task, end_task, pasture, repair,
}
use tern_scheduler.Model.Schedule.{ScheduledJob}
use tern_scheduler.Errors.{other}
use tern_scheduler.Errors.Exec.{ok, err}
use tern_scheduler.Store.Database.{update_date}
use tern_scheduler.Store.Database.Laws.{job_at, IsConsistent}
use tern_scheduler.Store.Jobs.{repair_expired_lease_for_scheduled_job, release_scheduled_job_lease}
use tern_scheduler.Store.Jobs.Leases.{
  released, Outcome, owner_answer, release_row, may_take_over, release_scheduled_job_lease-Outcome,
}
use tern_scheduler.Store.Jobs.Repair.{repaired, repair_expired_lease-Outcome}
use tern_scheduler.Controller.World.{World, Env, on_store}
use tern_scheduler.Controller.Schedule.Ends.{Ended}
use tern_scheduler.Controller.Repair.{repair_expired_schedule, repair_leased, perform_repair}

-- The states that the repair knows and rejects.
abbrev pub is_unfinished : ScheduleState → Bool
is_unfinished start_task = true
is_unfinished end_task = true
is_unfinished pasture = true
is_unfinished add_task = false
is_unfinished repair = false

repair_rejected :
    (j : ScheduledJob) (s : ScheduleState) (w : World)
    → j.repair_state ≡ some s
    → is_unfinished s ≡ true
    → perform_repair j w ≡ (err (other "not implemented"), w)
unfolding perform_repair
repair_rejected j start_task w e u = rw e
repair_rejected j end_task w e u = rw e
repair_rejected j pasture w e u = rw e
repair_rejected j add_task w e u = cc
repair_rejected j repair w e u = cc

module _ (env : Env) (src j : ScheduledJob) (now e : Date) (s : ScheduleState) (w : World)
    (named : src.pk ≢ "") (v : IsConsistent w.db) (found : job_at src.pk w.db ≡ some j)
    (busy : j.update_state ≡ some s) (first : j.repair_state ≡ none)
    (ends : j.lease_expires ≡ some e) (over : ltb_ℤ now e ≡ true) where
  abbrev lease_id : String
  lease_id = env.lease_owner w.leases_made

  abbrev taken_row : ScheduledJob
  taken_row = repaired lease_id (update_date now (pos env.lease_time_seconds)) j

  abbrev taken : World
  taken = record w {
    db = (repair_expired_lease_for_scheduled_job src.pk lease_id now env.lease_time_seconds w.db).1;
    leases_made = suc w.leases_made;
  }

  may : may_take_over now j ≡ true
  may = rw (busy, ends) over

  answer_taken :
      (repair_expired_lease_for_scheduled_job src.pk lease_id now env.lease_time_seconds w.db).0
      ≡ ok (some taken_row)
  answer_taken =
      (repair_expired_lease-Outcome src.pk named w.db v lease_id now env.lease_time_seconds).answers
      ∙ rw found (rw may)

  taking :
      on_store
        (repair_expired_lease_for_scheduled_job src.pk lease_id now env.lease_time_seconds)
        (record w { leases_made = suc w.leases_made })
      ≡ (ok (some taken_row), taken)
  unfolding on_store
  taking = rw answer_taken

  row_taken : job_at src.pk taken.db ≡ some taken_row
  row_taken =
      (repair_expired_lease-Outcome src.pk named w.db v lease_id now env.lease_time_seconds).rows
        src.pk
      ∙ rw (same_refl src.pk, found) (rw may)

  abbrev reason : String
  reason = env.error_text (other "not implemented")

  abbrev freed : World
  freed = record taken {
    db = (release_scheduled_job_lease lease_id src.pk (some true) (some reason) taken.db).1;
  }

  release-Outcome :
      Outcome
        (owner_answer lease_id lease_id src.pk (job_at src.pk taken.db))
        (release_row lease_id true (some reason))
        src.pk
        taken.db
        (release_scheduled_job_lease lease_id src.pk (some true) (some reason) taken.db)
  release-Outcome =
      release_scheduled_job_lease-Outcome src.pk named taken.db
        (repair_expired_lease-Outcome src.pk named w.db v lease_id now
          env.lease_time_seconds).consistent
        lease_id true (some reason)

  answer_freed :
      (release_scheduled_job_lease lease_id src.pk (some true) (some reason) taken.db).0 ≡ ok tt
  answer_freed = release-Outcome.answers ∙ rw (row_taken, same_refl lease_id)

  freeing :
      on_store (release_scheduled_job_lease lease_id src.pk (some true) (some reason)) taken
      ≡ (ok tt, freed)
  unfolding on_store
  freeing = rw answer_freed

  -- A scheduled job whose lease the table lets be taken over, and which was starting a task,
  -- ending one or being disabled, with no repair state yet, in a consistent store and under a key
  -- that is not empty: its repair is no error, and leaves it free, but out to pasture, with the
  -- text of the error that the state is not implemented as the reason; the tasks stay.
  pub repair_expired_schedule-unfinished :
      is_unfinished s ≡ true
      → Ended
          (ok tt)
          src.pk
          (released true (some reason) j)
          w.db.tasks
          (repair_expired_schedule env src now w)
  unfolding repair_expired_schedule repair_leased
  repair_expired_schedule-unfinished unfinished =
      rw (taking, repair_rejected taken_row s taken (rw (first, busy)) unfinished, freeing)
        (record {
          answers = refl;
          row_after =
              release-Outcome.rows src.pk
              ∙ rw (same_refl src.pk, row_taken) (rw (same_refl lease_id));
          tasks_after =
              release-Outcome.tasks
              ∙ (repair_expired_lease-Outcome src.pk named w.db v lease_id now
                  env.lease_time_seconds).tasks;
        })
