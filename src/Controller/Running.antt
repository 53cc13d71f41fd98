-- ===== src/Controller/Running.antt =====
-- packages/core/src/lib/controller/combined.ts: starting a task that is ready to run, taking note
-- that its job finished, and disabling a scheduled job.
pub mod Disable
pub mod Refused
pub mod Statuses
pub mod Started
pub mod Finished
pub mod NotStarted
pub mod Start
use tern_scheduler.Prelude.{
  ℕ, String, Bool, true, false, Option, none, some, List, [], ◌∷◌, if◌then◌else◌,
}
use tern_scheduler.Model.Value.{
  Date, TaskState, ScheduleState, queued, started, start_task, end_task, complete_error,
}
use tern_scheduler.Model.Schedule.{ScheduledJob}
use tern_scheduler.Model.Task.{Task}
use tern_scheduler.Errors.{
  Error, lease_not_obtained, invalid_task_state, invalid_job_execution_status, task_not_found,
  tern_error,
}
use tern_scheduler.Errors.Exec.{Exec, Result, ok, err, pure, raise, lift, ◌>>=◌, ◌>>◌, catch}
use tern_scheduler.Store.Tasks.{
  get_task_by_execution_job_id, mark_task_queued, mark_task_started, mark_task_start_failed,
  mark_task_completed, mark_task_skipped, mark_task_failed,
}
use tern_scheduler.Strategies
use tern_scheduler.Strategies.{TaskCreationStrategy, TaskCreationAction, after_finish, after_start}
use tern_scheduler.Controller.World.{
  World, Env, JobExecutionState, running, did_not_start, completed, failed, unknown, on_store, emit,
  read_clock, or_null, or_empty, task_running, task_finished, task_start_no_lease,
  task_finished_no_lease, task_finished_not_updated,
}
use tern_scheduler.Controller.Schedule.{LeaseExit, exit_value, run_update_in_lease}
use tern_scheduler.Controller.Combined.{CurrentTask, should_skip_task, retry_task, queue_next}

-- `startJob(...)`; a framework that fails to answer has the task marked, and the error goes on.
unfoldable pub launch : Env → ScheduledJob → Task → Exec World JobExecutionState
launch env sched task = catch (env.start_job task.pk sched.job_name sched.job_context) (λ e. do
  now ← read_clock env
  on_store (mark_task_start_failed task now (env.error_text e))
  raise e)

abbrev pub keep_task : Task → CurrentTask
keep_task task = record { value = some task; pasture = false }

-- The task's changes for each status that the framework answers with.
unfoldable pub record_status :
    Env → Date → ScheduledJob → Task → JobExecutionState → Exec World CurrentTask
record_status env now sched task (completed job_id result) = do
  started_at ← read_clock env
  on_store (mark_task_started task started_at job_id)
  completed_at ← read_clock env
  on_store (mark_task_completed task completed_at (or_empty result))
  pure (keep_task task)
record_status env now sched task (did_not_start result) = do
  at ← read_clock env
  on_store (mark_task_start_failed task at (or_empty result))
  pure (record { value = none; pasture = true })
record_status env now sched task (failed job_id result) = do
  started_at ← read_clock env
  on_store (mark_task_started task started_at job_id)
  failed_at ← read_clock env
  on_store (mark_task_failed task failed_at queued TaskState.failed (or_empty result))
  retry_task env now sched task (or_empty result)
record_status env now sched task (running job_id) = do
  at ← read_clock env
  on_store (mark_task_started task at job_id)
  emit (task_running task job_id)
  pure (keep_task task)
record_status env now sched task (unknown state) = raise (invalid_job_execution_status state)

unfoldable pub record_skip : Env → Task → Exec World CurrentTask
record_skip env task = do
  at ← read_clock env
  on_store (mark_task_skipped task at)
  pure (keep_task task)

-- Whether a task follows when this one has started. The answer of the strategy to disable the
-- job is dropped, as `pasture` of the current task is.
abbrev pub follow_started :
    Env → Date → ScheduledJob → Task → TaskCreationStrategy → Exec World (Unit {0})
follow_started env now sched task (after_start create next) = do
  action ← lift (next now sched)
  queue_next env now sched task action
  pure tt
follow_started env now sched task _ = pure tt

abbrev pub follow_current : Env → Date → ScheduledJob → CurrentTask → Exec World (Unit {0})
follow_current env now sched current = elim current.value [
  | none ↦ pure tt
  | some task ↦ if current.pasture then pure tt else do
    strategy ← lift (Strategies.get sched.task_creation_strategy env.task_creation_registry)
    follow_started env now sched task strategy
]

abbrev pub start_or_skip : Env → Date → ScheduledJob → Task → Bool → Exec World CurrentTask
start_or_skip env now sched task true = record_skip env task
start_or_skip env now sched task false = do
  status ← launch env sched task
  record_status env now sched task status

-- What startTask runs under the lease.
unfoldable pub start_leased : Env → Task → Date → ScheduledJob → Exec World (LeaseExit (Unit {0}))
start_leased env task now sched = do
  on_store (mark_task_queued task now)
  should_skip ← should_skip_task env sched task
  current ← start_or_skip env now sched task should_skip
  follow_current env now sched current
  pure (exit_value tt false none)

abbrev pub start_refused : Task → Error → Exec World (Unit {0})
start_refused task (lease_not_obtained id job owner expires) = emit (task_start_no_lease task owner)
start_refused task e = raise e

unfoldable pub start_task_now : Env → Task → Date → Exec World (Unit {0})
start_task_now env task now =
    catch
      (run_update_in_lease env start_task task.schedule (some task.pk) now
        (λ sched lease_id. start_leased env task now sched))
      (start_refused task)

-- A strategy that creates tasks after the finish says whether one follows.
abbrev pub follow_finished :
    Env → Date → ScheduledJob → Task → TaskCreationStrategy → Exec World CurrentTask
follow_finished env now sched task (after_finish create next) = do
  action ← lift (next now sched)
  queue_next env now sched task action
follow_finished env now sched task _ = pure (record { value = none; pasture = false })

abbrev pub exit_with : CurrentTask → LeaseExit (Unit {0})
exit_with current = exit_value tt current.pasture none

-- What taskFinished runs under the lease.
unfoldable pub finish_leased :
    Env → Task → Date → JobExecutionState → ScheduledJob → Exec World (LeaseExit (Unit {0}))
finish_leased env task now (failed job_id result) sched = do
  on_store (mark_task_failed task now started complete_error (or_empty result))
  current ← retry_task env now sched task (or_empty result)
  pure (exit_with current)
finish_leased env task now (completed job_id result) sched = do
  on_store (mark_task_completed task now (or_empty result))
  emit (task_finished task)
  strategy ← lift (Strategies.get sched.task_creation_strategy env.task_creation_registry)
  current ← follow_finished env now sched task strategy
  pure (exit_with current)
finish_leased env task now (running job_id) sched = raise (invalid_job_execution_status "running")
finish_leased env task now (did_not_start result) sched =
    raise (invalid_job_execution_status "did-not-start")
finish_leased env task now (unknown state) sched = raise (invalid_job_execution_status state)

abbrev pub finish_refused : Task → JobExecutionState → Error → Exec World (Unit {0})
finish_refused task result (lease_not_obtained id job owner expires) =
    emit (task_finished_no_lease task owner result)
finish_refused task result (invalid_task_state found new_state expected) =
    emit (task_finished_not_updated task new_state result)
finish_refused task result e = raise e

abbrev pub finish_found :
    Env → String → JobExecutionState → Date → Option Task → Exec World (Unit {0})
finish_found env exec_job_id result now none = raise (task_not_found exec_job_id)
finish_found env exec_job_id result now (some task) =
    catch
      (run_update_in_lease env end_task task.schedule (some task.pk) now
        (λ sched lease_id. finish_leased env task now result sched))
      (finish_refused task result)

abbrev pub is_running : JobExecutionState → Bool
is_running (running job_id) = true
is_running _ = false

-- The promise of taskFinished.
unfoldable pub finish_reported : Env → String → JobExecutionState → Date → Exec World (Unit {0})
finish_reported env exec_job_id result now = do
  task ← on_store (get_task_by_execution_job_id exec_job_id)
  finish_found env exec_job_id result now task

-- For a job that still runs the call throws before there is a promise: `err` is such a throw. Its
-- message also holds the state's JSON text, left out here.
unfoldable pub task_finished_now :
    Env → String → JobExecutionState → Date → Result (Exec World (Unit {0}))
task_finished_now env exec_job_id result now =
    if is_running result
    then err (tern_error "invalid job execution state")
    else ok (finish_reported env exec_job_id result now)

unfoldable pub disable_schedule : Env → ScheduledJob → Option String → Date → Exec World (Unit {0})
disable_schedule env schedule reason now =
    run_update_in_lease env ScheduleState.pasture schedule.pk none now
      (λ sched lease_id. pure (exit_value tt true (or_null reason)))
