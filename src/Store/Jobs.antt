-- ===== src/Store/Jobs.antt =====
-- The scheduled-job methods of packages/core/src/lib/datastore/db-impl.ts. Each update of a row
-- is guarded by a condition on the columns of its lease.
pub mod Guarded
pub mod Leases
pub mod Repair
use tern_scheduler.Prelude.{
  ℕ, String, Bool, true, false, Option, none, some, List, [], ◌∷◌, pos, ltb, if◌then◌else◌,
}
use tern_scheduler.Model.Value.{Date, ScheduleState, repair, text, flag, null}
use tern_scheduler.Model.Schedule.{
  ScheduledJob, JobColumn, JobChange, pasture_column, update_state_column, lease_expires_column,
  lease_owner_column, set_update_state, set_update_task_pk, set_pasture, set_pasture_reason,
  set_lease_owner, set_lease_expires, set_repair_state,
}
use tern_scheduler.Errors.{Error, lease_not_obtained, lease_not_owned, scheduled_job_not_found}
use tern_scheduler.Errors.Exec.{Exec, pure, raise, ◌>>=◌}
use tern_scheduler.Db.Conditional.{Conditional, equals, before_date, is_null, not_null}
use tern_scheduler.Store.Database.{
  Database, create_job, update_job, find_jobs, remove_job, job_pk_equals, and_conditional,
  update_date,
}

unfoldable pub add_scheduled_job_model : ScheduledJob → String → Date → ℕ → Exec Database (Unit {0})
add_scheduled_job_model model lease_id now lease_time_seconds = create_job (record model {
  lease_owner = some lease_id;
  lease_expires = some (update_date now (pos lease_time_seconds));
})

-- `rows.length > 0 ? rows[0] : null`
abbrev pub first_row : {A : Type 0} → List A → Option A
first_row [] = none
first_row (row ∷ rows) = some row

unfoldable pub get_scheduled_job : String → Exec Database (Option ScheduledJob)
get_scheduled_job pk = do rows ← find_jobs 0 1 (job_pk_equals pk); pure (first_row rows)

unfoldable pub poll_lease_expired_scheduled_jobs : Date → ℕ → Exec Database (List ScheduledJob)
poll_lease_expired_scheduled_jobs now limit =
    find_jobs 0 limit (before_date lease_expires_column now)

unfoldable pub delete_scheduled_job : ScheduledJob → Exec Database Bool
delete_scheduled_job job = do
  count ← remove_job job.pk (equals pasture_column (flag true))
  pure (ltb 0 count)

-- What a method does when its conditional update found no row to change.
abbrev pub deny_found :
    String → (ScheduledJob → Error) → Option ScheduledJob → Exec Database (Unit {0})
deny_found job_pk denied none = raise (scheduled_job_not_found job_pk)
deny_found job_pk denied (some job) = raise (denied job)

unfoldable pub deny : String → (ScheduledJob → Error) → Exec Database (Unit {0})
deny job_pk denied = do
  jobs ← find_jobs 0 1 (job_pk_equals job_pk)
  deny_found job_pk denied (first_row jobs)

-- `count > 0` decides between a resolved promise and the denial.
abbrev pub unless_changed : ℕ → Exec Database (Unit {0}) → Exec Database (Unit {0})
unless_changed count denial = if ltb 0 count then pure tt else denial

-- The condition under which a lease may be taken over.
abbrev pub lease_is_over : Date → Conditional JobColumn
lease_is_over now =
    and_conditional (not_null update_state_column ∷ before_date lease_expires_column now ∷ [])

-- The condition under which a lease may be given up.
abbrev pub lease_is_ours : String → Conditional JobColumn
lease_is_ours lease_id =
    and_conditional (not_null update_state_column ∷ equals lease_owner_column (text lease_id) ∷ [])

unfoldable pub steal_expired_lease_for_scheduled_job :
    String → String → Date → ℕ → Exec Database (Unit {0})
steal_expired_lease_for_scheduled_job job_pk new_lease_id now lease_time_seconds = do
  let expires = update_date now (pos lease_time_seconds)
  count ←
      update_job job_pk
        (set_update_state (some repair)
          ∷ set_lease_owner (some new_lease_id)
          ∷ set_lease_expires (some expires)
          ∷ [])
        (lease_is_over now)
  unless_changed count
      (deny job_pk (λ job. lease_not_obtained new_lease_id job job.lease_owner job.lease_expires))

unfoldable pub lease_scheduled_job :
    String → ScheduleState → Option String → String → Date → ℕ → Exec Database (Unit {0})
lease_scheduled_job job_pk update_operation update_task_pk lease_id now lease_time_seconds = do
  let expires = update_date now (pos lease_time_seconds)
  count ←
      update_job job_pk
        (set_update_state (some update_operation)
          ∷ set_update_task_pk update_task_pk
          ∷ set_lease_owner (some lease_id)
          ∷ set_lease_expires (some expires)
          ∷ [])
        (is_null update_state_column)
  unless_changed count
      (deny job_pk (λ job. lease_not_obtained lease_id job job.lease_owner job.lease_expires))

-- `pasture` is `none` where the source passes `undefined`.
abbrev pub release_changes : Option Bool → Option String → List JobChange
release_changes (some pasture) pasture_reason =
    set_update_state none
    ∷ set_update_task_pk none
    ∷ set_lease_owner none
    ∷ set_lease_expires none
    ∷ set_repair_state none
    ∷ set_pasture pasture
    ∷ set_pasture_reason pasture_reason
    ∷ []
release_changes none pasture_reason =
    set_update_state none
    ∷ set_update_task_pk none
    ∷ set_lease_owner none
    ∷ set_lease_expires none
    ∷ set_repair_state none
    ∷ []

unfoldable pub release_scheduled_job_lease :
    String → String → Option Bool → Option String → Exec Database (Unit {0})
release_scheduled_job_lease lease_id job_pk pasture pasture_reason = do
  count ← update_job job_pk (release_changes pasture pasture_reason) (lease_is_ours lease_id)
  unless_changed count
      (deny job_pk (λ job. lease_not_owned lease_id job job.lease_owner job.lease_expires))

-- `src.repairState || src.updateState`
abbrev pub or_else : Option ScheduleState → Option ScheduleState → Option ScheduleState
or_else (some a) b = some a
or_else none b = b

-- The row is read again after the update, and is the answer if the update changed it.
abbrev pub repaired_row : String → ℕ → Option ScheduledJob → Exec Database (Option ScheduledJob)
repaired_row job_pk count none = raise (scheduled_job_not_found job_pk)
repaired_row job_pk count (some job) = if ltb 0 count then pure (some job) else pure none

abbrev pub repair_changes : String → Date → ScheduledJob → List JobChange
repair_changes new_lease_id expires src =
    set_update_state (some repair)
    ∷ set_lease_owner (some new_lease_id)
    ∷ set_lease_expires (some expires)
    ∷ set_repair_state (or_else src.repair_state src.update_state)
    ∷ []

unfoldable pub take_expired_lease :
    String → String → Date → ℕ → ScheduledJob → Exec Database (Option ScheduledJob)
take_expired_lease job_pk new_lease_id now lease_time_seconds src = do
  let expires = update_date now (pos lease_time_seconds)
  count ← update_job job_pk (repair_changes new_lease_id expires src) (lease_is_over now)
  jobs ← find_jobs 0 1 (job_pk_equals job_pk)
  repaired_row job_pk count (first_row jobs)

abbrev pub repair_found :
    String → String → Date → ℕ → Option ScheduledJob → Exec Database (Option ScheduledJob)
repair_found job_pk new_lease_id now lease_time_seconds none = pure none
repair_found job_pk new_lease_id now lease_time_seconds (some src) =
    take_expired_lease job_pk new_lease_id now lease_time_seconds src

unfoldable pub repair_expired_lease_for_scheduled_job :
    String → String → Date → ℕ → Exec Database (Option ScheduledJob)
repair_expired_lease_for_scheduled_job job_pk new_lease_id now lease_time_seconds = do
  src ← get_scheduled_job job_pk
  repair_found job_pk new_lease_id now lease_time_seconds src

unfoldable pub mark_leased_scheduled_job_needs_repair :
    String → String → Date → Bool → Option String → Exec Database (Unit {0})
mark_leased_scheduled_job_needs_repair job_pk lease_id now pasture pasture_reason = do
  count ←
      update_job job_pk
        (set_lease_expires (some now)
          ∷ set_pasture pasture
          ∷ set_pasture_reason pasture_reason
          ∷ [])
        (lease_is_ours lease_id)
  unless_changed count
      (deny job_pk (λ job. lease_not_owned "<unknown>" job job.lease_owner job.lease_expires))
