-- ===== src/Controller/Schedule.antt =====
-- packages/core/src/lib/controller/schedule.ts: running an operation while holding the lease of a
-- scheduled job, and creating a scheduled job in a leased state.
pub mod Ends
pub mod Free
use tern_scheduler.Prelude.{
  ℕ, String, Bool, true, false, Option, none, some, List, [], ◌∷◌, ◌++◌, if◌then◌else◌,
}
use Prim.Native.String.{◌++◌ as text_append}
use tern_scheduler.Model.Value.{Date, ScheduleState, add_task}
use tern_scheduler.Model.Schedule.{ScheduledJob}
use tern_scheduler.Errors.{
  Error, invalid_schedule_definition, scheduled_job_not_found, is_invalid_schedule_definition,
}
use tern_scheduler.Errors.Exec.{Exec, Result, ok, err, pure, raise, ◌>>=◌, ◌>>◌, catch}
use tern_scheduler.Store.Jobs.{
  add_scheduled_job_model, lease_scheduled_job, release_scheduled_job_lease, get_scheduled_job,
  mark_leased_scheduled_job_needs_repair,
}
use tern_scheduler.Controller.World.{
  World, Env, on_store, emit, emit_if, make_key, make_lease_id, or_null, scheduled_job_disabled,
  invalid_schedule, general_error,
}

pub record NewScheduledJob : Type 0 where
  pub display_name : String
  pub description : String
  pub duplicate_strategy : String
  pub job_name : String
  pub job_context : String
  pub retry_strategy : String
  pub task_creation_strategy : String
  pub schedule_definition : String
  pub previous_schedule : Option String
  pub previous_reason : Option String

-- What an operation under a lease ends with: a value or an error, whether the job goes out to
-- pasture, and why.
pub data LeaseExit (T : Type 0) : Type 0 where
  exit_value : T → Bool → Option String → LeaseExit T
  exit_error : Error → Bool → Option String → LeaseExit T

-- `result.pasture ? (result.pastureReason || null) : null`
abbrev pub pasture_reason : Bool → Option String → Option String
pasture_reason true reason = or_null reason
pasture_reason false reason = none

-- `error.message` of an InvalidScheduleDefinitionError; it is asked of no other error.
abbrev pub definition_message : Error → String
definition_message (invalid_schedule_definition pk definition problem) =
    text_append "Scheduled job " (
      text_append pk (
        text_append " has invalid strategy definition ("
          (text_append problem (text_append "): " definition))))
definition_message e = ""

-- The store call that ends a lease, with the events before it.
unfoldable pub end_lease :
    {T : Type 0} → ScheduledJob → String → Date → LeaseExit T → Exec World (Unit {0})
end_lease sched lease_owner now (exit_error e pasture reason) =
    if is_invalid_schedule_definition e
    then (do
      emit (invalid_schedule sched)
      emit (scheduled_job_disabled sched)
      on_store (
          release_scheduled_job_lease lease_owner sched.pk (some true)
            (some (definition_message e))))
    else (do
      emit_if pasture (scheduled_job_disabled sched)
      on_store (
          mark_leased_scheduled_job_needs_repair sched.pk lease_owner now pasture
            (pasture_reason pasture reason)))
end_lease sched lease_owner now (exit_value value pasture reason) = do
  emit_if pasture (scheduled_job_disabled sched)
  on_store (
      release_scheduled_job_lease lease_owner sched.pk (some pasture)
        (pasture_reason pasture reason))

-- An error of the release gives way to the error of the operation, and is reported then.
abbrev pub release_failed : {T : Type 0} → LeaseExit T → Error → Exec World (Unit {0})
release_failed (exit_error inner pasture reason) e = emit (general_error e) >> raise inner
release_failed (exit_value value pasture reason) e = raise e

abbrev pub exit_result : {T : Type 0} → LeaseExit T → Exec World T
exit_result (exit_error e pasture reason) = raise e
exit_result (exit_value value pasture reason) = pure value

unfoldable pub finish_lease :
    {T : Type 0} → ScheduledJob → String → Date → LeaseExit T → Exec World T
finish_lease sched lease_owner now result = do
  catch (end_lease sched lease_owner now result) (release_failed result)
  exit_result result

-- `withLease` may throw, or its promise be rejected; either way the lease ends with the error.
abbrev pub caught : {T : Type 0} → Exec World (LeaseExit T) → Exec World (LeaseExit T)
caught with_lease = catch with_lease (λ e. pure (exit_error e false none))

unfoldable pub new_model : NewScheduledJob → Date → String → String → ScheduledJob
new_model job now sched_pk created_task_pk = record {
  pk = sched_pk;
  update_state = some add_task;
  update_task_pk = some created_task_pk;
  pasture = false;
  pasture_reason = none;
  display_name = job.display_name;
  description = job.description;
  created_on = now;
  duplicate_strategy = job.duplicate_strategy;
  retry_strategy = job.retry_strategy;
  job_name = job.job_name;
  job_context = job.job_context;
  task_creation_strategy = job.task_creation_strategy;
  schedule_definition = job.schedule_definition;
  previous_schedule = or_null job.previous_schedule;
  previous_reason = or_null job.previous_reason;
  repair_state = none;
  lease_owner = none;
  lease_expires = none;
}

-- The handler of a failed `addScheduledJobModel`.
abbrev pub add_failed : {T : Type 0} → String → String → Date → Error → Exec World T
add_failed sched_pk lease_owner now e = do
  catch (on_store (mark_leased_scheduled_job_needs_repair sched_pk lease_owner now false none))
      (λ e2. emit (general_error e2) >> raise e)
  raise e

unfoldable pub create_scheduled_job_alone :
    {T : Type 0}
    → Env
    → NewScheduledJob
    → Date
    → (ScheduledJob → String → Exec World (LeaseExit T))
    → Exec World T
create_scheduled_job_alone env scheduled_job now with_lease = do
  lease_owner ← make_lease_id env
  sched_pk ← make_key env
  created_task_pk ← make_key env
  let sched = new_model scheduled_job now sched_pk created_task_pk
  result ←
      catch
        (on_store (add_scheduled_job_model sched lease_owner now env.lease_time_seconds)
          >> caught (with_lease sched created_task_pk))
        (add_failed sched_pk lease_owner now)
  finish_lease sched lease_owner now result

-- The attempts to take a lease: one at once, and one after each of the delays while they fail.
unfoldable pub lease_with_retry : Env → Exec World (Unit {0}) → List ℕ → Exec World (Unit {0})
lease_with_retry env attempt [] w = attempt w
lease_with_retry env attempt (retry_seconds ∷ delays) w =
    let again = λ (w' : World). lease_with_retry env attempt delays (env.wait retry_seconds w') in
    catch attempt (λ e. again) w

abbrev pub found_job : String → Option ScheduledJob → Exec World ScheduledJob
found_job job_pk none = raise (scheduled_job_not_found job_pk)
found_job job_pk (some sched) = pure sched

unfoldable pub run_update_in_lease :
    {T : Type 0}
    → Env
    → ScheduleState
    → String
    → Option String
    → Date
    → (ScheduledJob → String → Exec World (LeaseExit T))
    → Exec World T
run_update_in_lease env update_operation job_pk update_task_pk now with_lease = do
  lease_owner ← make_lease_id env
  lease_with_retry env
      (on_store (
        lease_scheduled_job job_pk update_operation update_task_pk lease_owner now
          env.lease_time_seconds))
      env.retry_seconds_delay
  row ← on_store (get_scheduled_job job_pk)
  sched ← found_job job_pk row
  result ← caught (with_lease sched lease_owner)
  finish_lease sched lease_owner now result
