-- ===== src/Store/Jobs/Leases.antt =====
-- The lease of a scheduled job as a lock, and the methods of
-- packages/core/src/lib/datastore/db-impl.ts that take it, give it up and break it, as changes of
-- the lock of one row.
use tern_scheduler.Prelude.{
  ℕ, String, Bool, false, Option, none, some, List, if◌then◌else◌, ◌≡◌, ◌≢◌, refl, arith, ap, same,
  ◌∙◌, pos, ltb_ℤ,
}
use tern_scheduler.Model.Value.{Date, ScheduleState, repair}
use tern_scheduler.Model.Schedule.{ScheduledJob, JobColumn, JobChange, update_state_column}
use tern_scheduler.Errors.{Error, scheduled_job_not_found, lease_not_obtained, lease_not_owned}
use tern_scheduler.Errors.Exec.{Result, ok, err, ◌>>=◌}
use tern_scheduler.Db.Conditional.{Conditional, matches_record, is_null}
use tern_scheduler.Db.MemTable.{passes, write_all}
use tern_scheduler.Db.MemTable.Lookup.{map_option}
use tern_scheduler.Store.Database.{Database, job_model, update_job, update_date}
use tern_scheduler.Store.Database.Laws.{
  job_at, IsConsistent, job_at-update_job, update_job-IsConsistent,
}
use tern_scheduler.Store.Jobs.{
  lease_scheduled_job, release_scheduled_job_lease, mark_leased_scheduled_job_needs_repair,
  steal_expired_lease_for_scheduled_job, lease_is_over, lease_is_ours, unless_changed, deny,
}
use tern_scheduler.Store.Jobs.Guarded.{guarded, guarded_result}

-- Whether `id` holds a lease with this state and owner.
abbrev pub holds : String → Option ScheduleState → Option String → Bool
holds id none owner = false
holds id (some s) none = false
holds id (some s) (some owner) = same owner id

-- Whether `id` holds the lease: the row is being updated, and `id` is its owner.
abbrev pub owned_by : String → ScheduledJob → Bool
owned_by id j = holds id j.update_state j.lease_owner

-- Whether memory.ts lets the lease be taken over at `now`.
abbrev pub may_take_over : Date → ScheduledJob → Bool
may_take_over now j = elim j.update_state [
  | none ↦ false
  | some s ↦ elim j.lease_expires [ none ↦ false | some expires ↦ ltb_ℤ now expires ]
]

abbrev pub leased : ScheduleState → Option String → String → Date → ScheduledJob → ScheduledJob
leased op task id expires j = record j {
  update_state = some op;
  update_task_pk = task;
  lease_owner = some id;
  lease_expires = some expires;
}

abbrev pub lease_answer : String → String → Option ScheduledJob → Result (Unit {0})
lease_answer id pk none = err (scheduled_job_not_found pk)
lease_answer id pk (some j) = elim j.update_state [
  | none ↦ ok tt
  | some s ↦ err (lease_not_obtained id j j.lease_owner j.lease_expires)
]

abbrev pub lease_row : ScheduleState → Option String → String → Date → ScheduledJob → ScheduledJob
lease_row op task id expires j = elim j.update_state [
  | none ↦ leased op task id expires j
  | some s ↦ j
]

abbrev pub released : Bool → Option String → ScheduledJob → ScheduledJob
released pasture reason j = record j {
  update_state = none;
  update_task_pk = none;
  lease_owner = none;
  lease_expires = none;
  repair_state = none;
  pasture = pasture;
  pasture_reason = reason;
}

abbrev pub owner_answer : String → String → String → Option ScheduledJob → Result (Unit {0})
owner_answer shown id pk none = err (scheduled_job_not_found pk)
owner_answer shown id pk (some j) =
    if owned_by id j then ok tt else err (lease_not_owned shown j j.lease_owner j.lease_expires)

abbrev pub AtKey : (ScheduledJob → ScheduledJob) → String → Database → Database → Type 0
AtKey f pk db after =
    (k : String) → job_at k after ≡ (if same pk k then map_option f (job_at k db) else job_at k db)

-- How a method left the database: its answer, the rows, and the tasks, which stay.
pub record Outcome (answer : Result (Unit {0})) (f : ScheduledJob → ScheduledJob) (pk : String)
    (db : Database) (after : Result (Unit {0}) × Database) : Type 0 where
  pub answers : after.0 ≡ answer
  pub rows : AtKey f pk db after.1
  pub tasks : after.1.tasks ≡ db.tasks
  pub consistent : IsConsistent after.1

map_option-eq :
    {A : Type 0} (f g : A → A) (o : Option A)
    → ((a : A) → f a ≡ g a)
    → map_option f o ≡ map_option g o
map_option-eq f g none h = refl
map_option-eq f g (some a) h = ap some (h a)

abbrev pub release_row : String → Bool → Option String → ScheduledJob → ScheduledJob
release_row id pasture reason j = if owned_by id j then released pasture reason j else j

abbrev pub mark_row : String → Date → Bool → Option String → ScheduledJob → ScheduledJob
mark_row id now pasture reason j =
    if owned_by id j
    then record j { lease_expires = some now; pasture = pasture; pasture_reason = reason }
    else j

abbrev pub steal_answer : String → String → Date → Option ScheduledJob → Result (Unit {0})
steal_answer id pk now none = err (scheduled_job_not_found pk)
steal_answer id pk now (some j) =
    if may_take_over now j
    then ok tt
    else err (lease_not_obtained id j j.lease_owner j.lease_expires)

abbrev pub steal_row : String → Date → Date → ScheduledJob → ScheduledJob
steal_row id now expires j =
    if may_take_over now j
    then record j {
      update_state = some repair;
      lease_owner = some id;
      lease_expires = some expires;
    }
    else j

lease_answer-eq :
    (id pk : String) (o : Option ScheduledJob)
    → guarded_result pk
        (is_null update_state_column)
        (λ job. lease_not_obtained id job job.lease_owner job.lease_expires)
        o
      ≡ lease_answer id pk o
unfolding matches_record
lease_answer-eq id pk none = refl
lease_answer-eq id pk (some j) = ground arith

owner_answer-eq :
    (shown id pk : String) (o : Option ScheduledJob)
    → guarded_result pk
        (lease_is_ours id)
        (λ job. lease_not_owned shown job job.lease_owner job.lease_expires)
        o
      ≡ owner_answer shown id pk o
unfolding matches_record
owner_answer-eq shown id pk none = refl
owner_answer-eq shown id pk (some j) = ground arith

steal_answer-eq :
    (id pk : String) (now : Date) (o : Option ScheduledJob)
    → guarded_result pk
        (lease_is_over now)
        (λ job. lease_not_obtained id job job.lease_owner job.lease_expires)
        o
      ≡ steal_answer id pk now o
unfolding matches_record
steal_answer-eq id pk now none = refl
steal_answer-eq id pk now (some j) = ground arith

module _ (pk : String) (named : pk ≢ "") (db : Database) (v : IsConsistent db) where
  guarded-Outcome :
      (cs : List JobChange) (c : Conditional JobColumn) (denied : ScheduledJob → Error)
      (answer : Result (Unit {0})) (f : ScheduledJob → ScheduledJob)
      → guarded_result pk c denied (job_at pk db) ≡ answer
      → ((r : ScheduledJob)
          → (if passes job_model (some c) r then write_all job_model cs r else r) ≡ f r)
      → Outcome answer f pk db
          ((update_job pk cs c >>= λ count. unless_changed count (deny pk denied)) db)
  unfolding update_job
  guarded-Outcome cs c denied answer f e h = rw (guarded pk cs c denied db named v) (record {
    answers = e;
    rows = λ k.
        job_at-update_job pk named cs c db k
        ∙ ap (λ o. if same pk k then o else job_at k db) (map_option-eq _ f (job_at k db) h);
    tasks = refl;
    consistent = update_job-IsConsistent db v pk cs c;
  })

  -- Taking a lease, in a consistent store and under a key that is not empty: exactly a row that no
  -- one is updating is taken; the rows of other keys, a row that is held, and the tasks stay as
  -- they are; a held or missing row is an error.
  pub lease_scheduled_job-Outcome :
      (op : ScheduleState) (task : Option String) (id : String) (now : Date) (secs : ℕ)
      → Outcome
          (lease_answer id pk (job_at pk db))
          (lease_row op task id (update_date now (pos secs)))
          pk
          db
          (lease_scheduled_job pk op task id now secs db)
  unfolding lease_scheduled_job matches_record
  lease_scheduled_job-Outcome op task id now secs =
      guarded-Outcome _ (is_null update_state_column)
        (λ job. lease_not_obtained id job job.lease_owner job.lease_expires) _ _
        (lease_answer-eq id pk (job_at pk db)) (λ r. ground arith)

  -- Giving a lease up, in a consistent store and under a key that is not empty: exactly the row
  -- that `id` holds is freed, and put out to pasture or not; all else stays, and a row that is not
  -- held by `id` or missing is an error.
  pub release_scheduled_job_lease-Outcome :
      (id : String) (pasture : Bool) (reason : Option String)
      → Outcome
          (owner_answer id id pk (job_at pk db))
          (release_row id pasture reason)
          pk
          db
          (release_scheduled_job_lease id pk (some pasture) reason db)
  unfolding release_scheduled_job_lease matches_record
  release_scheduled_job_lease-Outcome id pasture reason =
      guarded-Outcome _ (lease_is_ours id)
        (λ job. lease_not_owned id job job.lease_owner job.lease_expires) _ _
        (owner_answer-eq id id pk (job_at pk db)) (λ r. ground arith)

  -- Marking for repair, in a consistent store and under a key that is not empty: the row that `id`
  -- holds keeps its lease, which ends now, and takes the pasture flag and reason that are given;
  -- all else stays, and a row that is not held by `id` or missing is an error.
  pub mark_leased_scheduled_job_needs_repair-Outcome :
      (id : String) (now : Date) (pasture : Bool) (reason : Option String)
      → Outcome
          (owner_answer "<unknown>" id pk (job_at pk db))
          (mark_row id now pasture reason)
          pk
          db
          (mark_leased_scheduled_job_needs_repair pk id now pasture reason db)
  unfolding mark_leased_scheduled_job_needs_repair matches_record
  mark_leased_scheduled_job_needs_repair-Outcome id now pasture reason =
      guarded-Outcome _ (lease_is_ours id)
        (λ job. lease_not_owned "<unknown>" job job.lease_owner job.lease_expires) _ _
        (owner_answer-eq "<unknown>" id pk (job_at pk db)) (λ r. ground arith)

  -- Stealing a lease, in a consistent store and under a key that is not empty: exactly a row whose
  -- lease the table lets be taken over gets the new owner, the state `repair` and a new end; all
  -- else stays, and any other or a missing row is an error.
  pub steal_expired_lease_for_scheduled_job-Outcome :
      (id : String) (now : Date) (secs : ℕ)
      → Outcome
          (steal_answer id pk now (job_at pk db))
          (steal_row id now (update_date now (pos secs)))
          pk
          db
          (steal_expired_lease_for_scheduled_job pk id now secs db)
  unfolding steal_expired_lease_for_scheduled_job matches_record
  steal_expired_lease_for_scheduled_job-Outcome id now secs =
      guarded-Outcome _ (lease_is_over now)
        (λ job. lease_not_obtained id job job.lease_owner job.lease_expires) _ _
        (steal_answer-eq id pk now (job_at pk db)) (λ r. ground arith)
