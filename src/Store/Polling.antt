-- ===== src/Store/Polling.antt =====
-- What the polling queries of packages/core/src/lib/datastore/db-impl.ts answer over memory.ts.
use tern_scheduler.Prelude.{
  ℕ, ◌≤◌, List, [], ◌∷◌, take, filter, length, length-take, ◌≡◌, refl, arith, All, All-take, true,
  Bool, Bool-cases, inl, inr, ltb_ℤ, some, none, Option,
}
use tern_scheduler.Model.Value.{Date, time, nullable, pending, eq_of_same_task_state}
use tern_scheduler.Model.Schedule.{ScheduledJob, JobColumn, lease_expires_column}
use tern_scheduler.Model.Task.{Task, TaskColumn, execute_at_column}
use tern_scheduler.Errors.Exec.{ok}
use tern_scheduler.Db.Conditional.{Conditional, before_date, date_test, matches_record}
use tern_scheduler.Db.MemTable
use tern_scheduler.Db.MemTable.{row_matches}
use tern_scheduler.Store.Database.{
  Database, job_model, task_model, find_tasks, find_jobs, and_conditional,
}
use tern_scheduler.Store.Jobs.{poll_lease_expired_scheduled_jobs}
use tern_scheduler.Store.Tasks.{poll_executable_tasks, state_is}

All-filter {ℓ} :
    {A : Type 0} (P : A → Type ℓ) (p : A → Bool) (xs : List A)
    → ((a : A) → p a ≡ true → P a)
    → All P (filter p xs)
All-filter P p [] h = tt
All-filter P p (x ∷ xs) h = elim (Bool-cases (p x)) [
  | inl e ↦ rw e (h x e, All-filter P p xs h)
  | inr e ↦ rw e (All-filter P p xs h)
]

abbrev matching_tasks : Conditional TaskColumn → Database → List Task
matching_tasks c db = filter (row_matches task_model none (some c)) db.tasks.rows

abbrev matching_jobs : Conditional JobColumn → Database → List ScheduledJob
matching_jobs c db = filter (row_matches job_model none (some c)) db.jobs.rows

abbrev pub EndsAfter : Date → Option Date → Type 0
EndsAfter now o = (e : Date) × (o ≡ some e) × (ltb_ℤ now e ≡ true)

EndsAfter-of_test :
    (now : Date) (o : Option Date) → date_test now (nullable time o) ≡ true → EndsAfter now o
EndsAfter-of_test now none h = cc
EndsAfter-of_test now (some e) h = (e, refl, h)

-- `pollExecutableTasks` of the memory store answers with at most `limit` tasks, changes nothing,
-- and each task that it answers with is pending and is to be executed strictly after `now`.
pub poll_executable_tasks_later :
    (db : Database) (now : Date) (limit : ℕ)
    → (found : List Task) × (poll_executable_tasks now limit db ≡ (ok found, db))
      × (length found ≤ limit)
      × All (λ t. (ltb_ℤ now t.execute_at ≡ true) × (t.state ≡ pending)) found
unfolding poll_executable_tasks find_tasks MemTable.find matches_record
poll_executable_tasks_later db now limit =
    let c = and_conditional (before_date execute_at_column now ∷ state_is pending ∷ []) in
    let rows = matching_tasks c db in
    (
      take limit rows,
      refl,
      omega (arith, length-take limit rows),
      All-take _ limit rows (
          All-filter _ (row_matches task_model none (some c)) db.tasks.rows (λ t h.
            (ground (arith, h), eq_of_same_task_state t.state pending (ground (arith, h))))),
    )

-- Each job that `pollLeaseExpiredScheduledJobs` of the memory store answers with has a lease that
-- ends strictly after `now`; there are at most `limit` of them, and nothing is changed.
pub poll_lease_expired_later :
    (db : Database) (now : Date) (limit : ℕ)
    → (found : List ScheduledJob) × (poll_lease_expired_scheduled_jobs now limit db
        ≡ (ok found, db))
      × (length found ≤ limit)
      × All (λ j. EndsAfter now j.lease_expires) found
unfolding poll_lease_expired_scheduled_jobs find_jobs MemTable.find matches_record
poll_lease_expired_later db now limit =
    let c = before_date lease_expires_column now in
    let rows = matching_jobs c db in
    (
      take limit rows,
      refl,
      omega (arith, length-take limit rows),
      All-take _ limit rows (
          All-filter _ (row_matches job_model none (some c)) db.jobs.rows
            (λ j h. EndsAfter-of_test now j.lease_expires (ground (arith, h)))),
    )
