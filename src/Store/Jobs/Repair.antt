-- ===== src/Store/Jobs/Repair.antt =====
-- repairExpiredLeaseForScheduledJob of packages/core/src/lib/datastore/db-impl.ts as a change of
-- the lock of one row.
use tern_scheduler.Prelude.{
  ℕ, String, Option, none, some, if◌then◌else◌, ◌≡◌, ◌≢◌, refl, arith, same_refl, ◌∙◌, pos,
  eq_of_same,
}
use tern_scheduler.Model.Value.{Date, repair}
use tern_scheduler.Model.Schedule.{ScheduledJob}
use tern_scheduler.Errors.Exec.{Result, ok}
use tern_scheduler.Db.Conditional.{matches_record}
use tern_scheduler.Db.MemTable.{passes}
use tern_scheduler.Db.MemTable.Matches.{to_list}
use tern_scheduler.Store.Database.{Database, job_model, update_job, update_date}
use tern_scheduler.Store.Database.Laws.{
  job_at, IsConsistent, update_job-count, job_at-update_job, find_jobs-key, update_job-IsConsistent,
}
use tern_scheduler.Store.Jobs.{
  get_scheduled_job, first_row, take_expired_lease, repair_found,
  repair_expired_lease_for_scheduled_job, or_else, repair_changes, lease_is_over,
}
use tern_scheduler.Store.Jobs.Leases.{may_take_over, AtKey}

abbrev pub repaired : String → Date → ScheduledJob → ScheduledJob
repaired id expires j = record j {
  update_state = some repair;
  lease_owner = some id;
  lease_expires = some expires;
  repair_state = or_else j.repair_state j.update_state;
}

abbrev pub repair_row : String → Date → Date → ScheduledJob → ScheduledJob
repair_row id now expires j = if may_take_over now j then repaired id expires j else j

abbrev pub repair_answer : String → Date → Date → Option ScheduledJob → Result (Option ScheduledJob)
repair_answer id now expires none = ok none
repair_answer id now expires (some j) =
    if may_take_over now j then ok (some (repaired id expires j)) else ok none

-- The row of a key is what `getScheduledJob` answers.
pub get_scheduled_job_lem :
    (pk : String) (db : Database) → get_scheduled_job pk db ≡ (ok (job_at pk db), db)
unfolding get_scheduled_job
get_scheduled_job_lem pk db = rw (find_jobs-key pk db) (by_row (job_at pk db))
  where
    by_row :
        (o : Option ScheduledJob)
        → ◌≡◌ {A = Result (Option ScheduledJob) × Database}
            (ok (first_row (to_list o)), db)
            (ok o, db)
    by_row none = refl
    by_row (some j) = refl

pub record RepairOutcome (answer : Result (Option ScheduledJob)) (f : ScheduledJob → ScheduledJob)
    (pk : String) (db : Database) (after : Result (Option ScheduledJob) × Database) : Type 0 where
  pub answers : after.0 ≡ answer
  pub rows : AtKey f pk db after.1
  pub tasks : after.1.tasks ≡ db.tasks
  pub consistent : IsConsistent after.1

pub over_eq :
    (now : Date) (j : ScheduledJob)
    → passes job_model (some (lease_is_over now)) j ≡ may_take_over now j
unfolding matches_record
over_eq now j = ground arith

module _ (pk : String) (named : pk ≢ "") (db : Database) (v : IsConsistent db) (j : ScheduledJob)
    (found : job_at pk db ≡ some j) (id : String) (now : Date) (secs : ℕ) where
  abbrev expires : Date
  expires = update_date now (pos secs)

  abbrev updated : Database
  updated = (update_job pk (repair_changes id expires j) (lease_is_over now) db).1

  job_after : job_at pk updated ≡ some (repair_row id now expires j)
  job_after =
      job_at-update_job pk named (repair_changes id expires j) (lease_is_over now) db pk
      ∙ ground (arith, same_refl pk, over_eq now j)

  take_expired_lease_lem :
      take_expired_lease pk id now secs j db ≡ (repair_answer id now expires (some j), updated)
  unfolding take_expired_lease
  take_expired_lease_lem =
      rw (update_job-count pk named (repair_changes id expires j) (lease_is_over now) db v)
        (ground (arith, find_jobs-key pk updated, job_after, over_eq now j))

  rows_after : AtKey (repair_row id now expires) pk db updated
  rows_after k =
      job_at-update_job pk named (repair_changes id expires j) (lease_is_over now) db k
      ∙ ground (arith, eq_of_same pk k, over_eq now j)

module _ (pk : String) (named : pk ≢ "") (db : Database) (v : IsConsistent db) where
  -- Repair, in a consistent store and under a key that is not empty, takes over exactly a row
  -- whose lease the table lets be taken over, and remembers the state that the row was in; it
  -- answers with that row, or with null; all else stays.
  pub repair_expired_lease-Outcome :
      (id : String) (now : Date) (secs : ℕ)
      → RepairOutcome
          (repair_answer id now (update_date now (pos secs)) (job_at pk db))
          (repair_row id now (update_date now (pos secs)))
          pk
          db
          (repair_expired_lease_for_scheduled_job pk id now secs db)
  unfolding repair_expired_lease_for_scheduled_job
  repair_expired_lease-Outcome id now secs =
      rw (get_scheduled_job_lem pk db) (by_row (job_at pk db) refl)
    where
      by_row :
          (o : Option ScheduledJob)
          → job_at pk db ≡ o
          → RepairOutcome
              (repair_answer id now (update_date now (pos secs)) o)
              (repair_row id now (update_date now (pos secs)))
              pk
              db
              (repair_found pk id now secs o db)
      by_row none e = record {
        answers = refl;
        rows = λ k. ground (arith, eq_of_same pk k);
        tasks = refl;
        consistent = v;
      }
      by_row (some j) e = rw (take_expired_lease_lem pk named db v j e id now secs) (record {
        answers = refl;
        rows = rows_after pk named db v j e id now secs;
        tasks = unfold update_job in refl;
        consistent = update_job-IsConsistent db v pk _ _;
      })
