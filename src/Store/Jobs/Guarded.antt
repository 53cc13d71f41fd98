-- ===== src/Store/Jobs/Guarded.antt =====
-- The shape that the lease methods of packages/core/src/lib/datastore/db-impl.ts share: a
-- conditional update, and a denial when it changed no row.
use tern_scheduler.Prelude.{
  String, Option, none, some, List, if◌then◌else◌, ◌≡◌, ◌≢◌, refl, arith, same_refl, ◌∙◌,
}
use tern_scheduler.Model.Schedule.{ScheduledJob, JobColumn, JobChange}
use tern_scheduler.Errors.{Error, scheduled_job_not_found}
use tern_scheduler.Errors.Exec.{Result, ok, err, ◌>>=◌}
use tern_scheduler.Db.Conditional.{Conditional}
use tern_scheduler.Db.MemTable.{passes}
use tern_scheduler.Store.Database.{Database, job_model, update_job}
use tern_scheduler.Store.Database.Laws.{
  job_at, IsConsistent, rewrite_job, update_job-count, job_at-update_job, find_jobs-key,
}
use tern_scheduler.Db.MemTable.Matches.{to_list}
use tern_scheduler.Store.Jobs.{first_row, deny, deny_found, unless_changed}

-- What a guarded change answers, given the row of its key.
abbrev pub guarded_result :
    String
    → Conditional JobColumn
    → (ScheduledJob → Error)
    → Option ScheduledJob
    → Result (Unit {0})
guarded_result pk c denied none = err (scheduled_job_not_found pk)
guarded_result pk c denied (some job) =
    if passes job_model (some c) job then ok tt else err (denied job)

abbrev pub denied_result : String → (ScheduledJob → Error) → Option ScheduledJob → Result (Unit {0})
denied_result pk denied none = err (scheduled_job_not_found pk)
denied_result pk denied (some job) = err (denied job)

pub deny_lem :
    (pk : String) (denied : ScheduledJob → Error) (db : Database)
    → deny pk denied db ≡ (denied_result pk denied (job_at pk db), db)
unfolding deny
deny_lem pk denied db = rw (find_jobs-key pk db) (by_row (job_at pk db))
  where
    by_row :
        (o : Option ScheduledJob)
        → deny_found pk denied (first_row (to_list o)) db ≡ (denied_result pk denied o, db)
    by_row none = refl
    by_row (some job) = refl

module _ (pk : String) (cs : List JobChange) (c : Conditional JobColumn)
    (denied : ScheduledJob → Error) (db : Database) (named : pk ≢ "") (v : IsConsistent db) where
  after_update : job_at pk (update_job pk cs c db).1 ≡ rewrite_job cs c (job_at pk db)
  after_update = job_at-update_job pk named cs c db pk ∙ rw (same_refl pk)

  -- A guarded change is decided by the row of its key alone.
  pub guarded :
      (update_job pk cs c >>= λ count. unless_changed count (deny pk denied)) db
      ≡ (guarded_result pk c denied (job_at pk db), (update_job pk cs c db).1)
  guarded =
      rw (update_job-count pk named cs c db v)
        (ground (arith, after_update, deny_lem pk denied (update_job pk cs c db).1))
