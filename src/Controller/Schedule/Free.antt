-- ===== src/Controller/Schedule/Free.antt =====
-- runUpdateInLease of packages/core/src/lib/controller/schedule.ts on a scheduled job that no one is
-- updating.
use tern_scheduler.Prelude.{
  ℕ, suc, String, Bool, false, Option, none, some, List, [], ◌∷◌, ◌≡◌, ◌≢◌, arith, sym, ap, ◌∙◌,
  same_refl, pos,
}
use tern_scheduler.Model.Value.{Date, ScheduleState}
use tern_scheduler.Model.Schedule.{ScheduledJob}
use tern_scheduler.Errors.{Error}
use tern_scheduler.Errors.Exec.{Exec, ok, err, ◌>>=◌}
use tern_scheduler.Db.MemTable.Lookup.{lookup_rows_key}
use tern_scheduler.Store.Database.{Database, job_model, update_date}
use tern_scheduler.Store.Database.Laws.{job_at, IsConsistent}
use tern_scheduler.Store.Jobs.{lease_scheduled_job, get_scheduled_job}
use tern_scheduler.Store.Jobs.Leases.{released, leased, lease_scheduled_job-Outcome}
use tern_scheduler.Store.Jobs.Repair.{get_scheduled_job_lem}
use tern_scheduler.Controller.World.{World, Env, on_store}
use tern_scheduler.Controller.Schedule.{
  LeaseExit, exit_value, exit_error, pasture_reason, finish_lease, lease_with_retry,
  run_update_in_lease, caught,
}
use tern_scheduler.Controller.Schedule.Ends.{
  Ended, needs_repair, finish_lease-value, finish_lease-error,
}

module _ (env : Env) (op : ScheduleState) (pk : String) (task : Option String) (now : Date)
    (w : World) (j : ScheduledJob) (named : pk ≢ "") (v : IsConsistent w.db)
    (found : job_at pk w.db ≡ some j) (free : j.update_state ≡ none) where
  abbrev pub lease_id : String
  lease_id = env.lease_owner w.leases_made

  abbrev pub held_row : ScheduledJob
  held_row = leased op task lease_id (update_date now (pos env.lease_time_seconds)) j

  abbrev pub held_db : Database
  held_db = (lease_scheduled_job pk op task lease_id now env.lease_time_seconds w.db).1

  -- The world in which the operation starts: the lease is taken.
  abbrev pub held_world : World
  held_world = record w { db = held_db; leases_made = suc w.leases_made }

  granted :
      on_store
        (lease_scheduled_job pk op task lease_id now env.lease_time_seconds)
        (record w { leases_made = suc w.leases_made })
      ≡ (ok tt, held_world)
  unfolding on_store
  granted =
      let out =
        lease_scheduled_job-Outcome pk named w.db v op task lease_id now env.lease_time_seconds in
      ground (arith, out.answers, found, free)

  pub row_held : job_at pk held_db ≡ some held_row
  row_held =
      (lease_scheduled_job-Outcome pk named w.db v op task lease_id now env.lease_time_seconds).rows
        pk
      ∙ rw (same_refl pk, found, free)

  pub held_db-IsConsistent : IsConsistent held_db
  held_db-IsConsistent =
      (lease_scheduled_job-Outcome pk named w.db v op task lease_id now
        env.lease_time_seconds).consistent

  pub held_db-tasks : held_db.tasks ≡ w.db.tasks
  held_db-tasks =
      (lease_scheduled_job-Outcome pk named w.db v op task lease_id now
        env.lease_time_seconds).tasks

  first_attempt :
      (attempt : Exec World (Unit {0})) (delays : List ℕ) (u u' : World)
      → attempt u ≡ (ok tt, u')
      → lease_with_retry env attempt delays u ≡ (ok tt, u')
  unfolding lease_with_retry
  first_attempt attempt [] u u' e = e
  first_attempt attempt (d ∷ ds) u u' e = rw e

  held_pk : held_row.pk ≡ pk
  held_pk = lookup_rows_key job_model pk w.db.jobs.rows j found

  read_back : on_store (get_scheduled_job pk) held_world ≡ (ok (some held_row), held_world)
  unfolding on_store
  read_back = rw (get_scheduled_job_lem pk held_db, row_held)

  -- On a free job the first attempt takes the lease, and the operation runs on the leased row.
  pub run_update_in_lease-free :
      {T : Type 0} (with_lease : ScheduledJob → String → Exec World (LeaseExit T))
      → run_update_in_lease env op pk task now with_lease w
        ≡ (caught (with_lease held_row lease_id) >>= finish_lease held_row lease_id now) held_world
  unfolding run_update_in_lease
  run_update_in_lease-free with_lease =
      rw (first_attempt _ env.retry_seconds_delay _ held_world granted) (rw read_back)

  -- An operation on a free job, in a consistent store and under a key that is not empty, that ends
  -- with a value and leaves the store consistent and the job's row as it was leased: the caller
  -- gets the value, the job is free again, out to pasture exactly if the operation said so,
  -- whether or not it was before, and the tasks are as the operation left them.
  pub run_update_in_lease-value :
      {T : Type 0} (with_lease : ScheduledJob → String → Exec World (LeaseExit T)) (value : T)
      (pasture : Bool) (reason : Option String) (u : World)
      → with_lease held_row lease_id held_world ≡ (ok (exit_value value pasture reason), u)
      → IsConsistent u.db
      → job_at pk u.db ≡ some held_row
      → Ended
          (ok value)
          pk
          (released pasture (pasture_reason pasture reason) j)
          u.db.tasks
          (run_update_in_lease env op pk task now with_lease w)
  run_update_in_lease-value with_lease value pasture reason u ran ok_db kept =
      let ends =
        finish_lease-value held_row lease_id now u held_row (λ e. named (sym held_pk ∙ e)) ok_db
          (ap (λ k. job_at k u.db) held_pk ∙ kept) (same_refl lease_id) value pasture reason in
      rw (run_update_in_lease-free with_lease, ran)
        (record {
          answers = ends.answers;
          row_after =
              sym (
                ap
                  (λ k.
                    job_at k
                      (finish_lease held_row lease_id now (exit_value value pasture reason) u).1.db)
                  held_pk)
              ∙ ends.row_after;
          tasks_after = ends.tasks_after;
        })

  -- An operation on a free job, in a consistent store and under a key that is not empty, that
  -- throws or is rejected, and leaves the store consistent and the job's row as it was leased: the
  -- caller gets that error, the job stays leased, in need of repair, and the tasks are as the
  -- operation left them.
  pub run_update_in_lease-error :
      {T : Type 0} (with_lease : ScheduledJob → String → Exec World (LeaseExit T)) (e : Error)
      (u : World)
      → with_lease held_row lease_id held_world ≡ (err e, u)
      → IsConsistent u.db
      → job_at pk u.db ≡ some held_row
      → Ended
          (err e)
          pk
          (needs_repair now false none held_row)
          u.db.tasks
          (run_update_in_lease env op pk task now with_lease w)
  run_update_in_lease-error {T} with_lease e u ran ok_db kept =
      let ends =
        finish_lease-error held_row lease_id now u held_row (λ e'. named (sym held_pk ∙ e')) ok_db
          (ap (λ k. job_at k u.db) held_pk ∙ kept) (same_refl lease_id) T e false none in
      rw (run_update_in_lease-free with_lease, ran)
        (record {
          answers = ends.answers;
          row_after =
              sym (
                ap
                  (λ k.
                    job_at k
                      (finish_lease {T = T} held_row lease_id now (exit_error e false none) u).1.db)
                  held_pk)
              ∙ ends.row_after;
          tasks_after = ends.tasks_after;
        })
