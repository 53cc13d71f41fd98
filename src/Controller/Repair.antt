-- ===== src/Controller/Repair.antt =====
-- packages/core/src/lib/controller/repair.ts: repairing a scheduled job whose lease ran out.
pub mod Unfinished
use tern_scheduler.Prelude.{
  ℕ, String, Bool, true, false, Option, none, some, List, [], ◌∷◌, same, if◌then◌else◌,
}
use Prim.Native.String.{◌++◌ as text_append}
use tern_scheduler.Model.Value.{
  Date, ScheduleState, add_task, start_task, end_task, pasture, repair, pending, queued, started,
  complete_queued,
}
use tern_scheduler.Model.Schedule.{ScheduledJob}
use tern_scheduler.Model.Task.{Task}
use tern_scheduler.Errors.{Error, other}
use tern_scheduler.Errors.Exec.{Exec, pure, raise, ◌>>=◌, ◌>>◌, catch}
use tern_scheduler.Store.Jobs.{release_scheduled_job_lease, repair_expired_lease_for_scheduled_job}
use tern_scheduler.Store.Tasks.{get_tasks_for_scheduled_job}
use tern_scheduler.Controller.World.{
  World, Env, on_store, emit, make_lease_id, or_null, general_error, internal_error,
}

-- The reason to put the job out to pasture, if the repair ends so.
abbrev pub ExitBehavior : Type 0
ExitBehavior = Option String

abbrev pub task_fetch_limit : ℕ
task_fetch_limit = 100

abbrev pub text_or : Option String → String → String
text_or none d = d
text_or (some s) d = if same s "" then d else s

-- `${taskPk}`
abbrev pub text_of_key : Option String → String
text_of_key none = "null"
text_of_key (some s) = s

-- `task ${taskPk} recorded: repair not implemented`
abbrev pub not_implemented : String → Error
not_implemented task_pk =
    other (text_append "task " (text_append task_pk " recorded: repair not implemented"))

abbrev pub close_if_created : String → List Task → Exec World ExitBehavior
close_if_created task_pk (task ∷ tasks) = pure none
close_if_created task_pk [] = raise (not_implemented task_pk)

-- The task of the row, if its key is not empty.
abbrev pub repair_recorded : ScheduledJob → Option String → Exec World ExitBehavior
repair_recorded schedule (some task_pk) = do
  tasks ← on_store (get_tasks_for_scheduled_job schedule (pending ∷ []) task_fetch_limit)
  close_if_created task_pk tasks
repair_recorded schedule none = do
  tasks ← on_store (
      get_tasks_for_scheduled_job schedule (queued ∷ started ∷ complete_queued ∷ pending ∷ [])
        task_fetch_limit)
  raise (not_implemented (text_of_key schedule.update_task_pk))

unfoldable pub repair_add_task : ScheduledJob → Exec World ExitBehavior
repair_add_task schedule =
    if schedule.pasture
    then pure (some (text_or schedule.pasture_reason "<invalid state>"))
    else repair_recorded schedule (or_null schedule.update_task_pk)

abbrev pub state_name : Option ScheduleState → String
state_name none = "null"
state_name (some add_task) = "add-task"
state_name (some start_task) = "start-task"
state_name (some end_task) = "end-task"
state_name (some pasture) = "pasture"
state_name (some repair) = "repair"

abbrev pub unknown_state : ScheduledJob → Exec World ExitBehavior
unknown_state schedule = do
  emit (
      internal_error (
        text_append "Internal Error: Schedule " (
          text_append schedule.pk
            (text_append " state [" (text_append (state_name schedule.repair_state) "] unknown")))))
  pure (some "Invalid internal state discovered during repair")

abbrev pub repair_from : ScheduledJob → Option ScheduleState → Exec World ExitBehavior
repair_from schedule (some add_task) = repair_add_task schedule
repair_from schedule (some start_task) = raise (other "not implemented")
repair_from schedule (some end_task) = raise (other "not implemented")
repair_from schedule (some pasture) = raise (other "not implemented")
repair_from schedule _ = unknown_state schedule

unfoldable pub perform_repair : ScheduledJob → Exec World ExitBehavior
perform_repair schedule = repair_from schedule schedule.repair_state

abbrev pub has_reason : ExitBehavior → Bool
has_reason none = false
has_reason (some reason) = true

-- The repair under the lease, and the release that ends it whatever happened.
unfoldable pub repair_leased : Env → String → String → ScheduledJob → Exec World (Unit {0})
repair_leased env lease_id pk schedule =
    catch
      (do
        exit ← perform_repair schedule
        on_store (release_scheduled_job_lease lease_id pk (some (has_reason exit)) (or_null exit)))
      (λ e. do
        on_store (release_scheduled_job_lease lease_id pk (some true) (some (env.error_text e)))
        emit (general_error e))

abbrev pub repair_obtained : Env → String → String → Option ScheduledJob → Exec World (Unit {0})
repair_obtained env lease_id pk none = pure tt
repair_obtained env lease_id pk (some schedule) = repair_leased env lease_id pk schedule

unfoldable pub repair_expired_schedule : Env → ScheduledJob → Date → Exec World (Unit {0})
repair_expired_schedule env src_schedule now = do
  lease_id ← make_lease_id env
  schedule ←
      on_store
        (repair_expired_lease_for_scheduled_job src_schedule.pk lease_id now env.lease_time_seconds)
  repair_obtained env lease_id src_schedule.pk schedule
