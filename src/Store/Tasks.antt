-- ===== src/Store/Tasks.antt =====
-- The task methods of packages/core/src/lib/datastore/db-impl.ts.
pub mod States
pub mod Transitions
use tern_scheduler.Prelude.{
  ℕ, String, Bool, true, false, Option, none, some, List, [], ◌∷◌, ◌++◌, map, ltb, if◌then◌else◌,
}
use tern_scheduler.Model.Value.{
  Date, TaskState, pending, queued, started, start_error, complete_error, failed, fail_restarted,
  completed, text, task_state, Value,
}
use tern_scheduler.Model.Schedule.{ScheduledJob}
use tern_scheduler.Model.Task.{
  Task, TaskColumn, TaskChange, state_column, schedule_column, execute_at_column,
  execution_queued_column, execution_started_column, execution_job_id_column, set_state,
  set_execution_job_id, set_execution_queued, set_execution_started, set_execution_finished,
  set_completed_info,
}
use tern_scheduler.Errors.{Error, task_not_found, invalid_task_state, duplicate_primary_key}
use tern_scheduler.Errors.Exec.{Exec, pure, raise, ◌>>=◌}
use tern_scheduler.Db.Conditional.{Conditional, equals, before_date, one_of}
use tern_scheduler.Store.Database.{
  Database, create_task, update_task, find_tasks, remove_task, task_pk_equals, and_conditional,
  update_date, negate,
}
use tern_scheduler.Store.Jobs.{first_row}

-- `tkEquals(TK_STATE, state)`
abbrev pub state_is : TaskState → Conditional TaskColumn
state_is s = equals state_column (task_state s)

-- `tkOneOf(TK_STATE, states)`
abbrev pub state_in : List TaskState → Conditional TaskColumn
state_in states = one_of state_column (map task_state states)

unfoldable pub poll_executable_tasks : Date → ℕ → Exec Database (List Task)
poll_executable_tasks now limit =
    find_tasks 0 limit (and_conditional (before_date execute_at_column now ∷ state_is pending ∷ []))

unfoldable pub poll_long_queued_tasks : Date → ℕ → ℕ → Exec Database (List Task)
poll_long_queued_tasks now before_seconds limit =
    let before = update_date now (negate before_seconds) in
    find_tasks 0 limit
      (and_conditional (before_date execution_queued_column before ∷ state_is queued ∷ []))

unfoldable pub poll_long_executing_tasks : Date → ℕ → ℕ → Exec Database (List Task)
poll_long_executing_tasks now before_seconds limit =
    let before = update_date now (negate before_seconds) in
    find_tasks 0 limit
      (and_conditional (before_date execution_started_column before ∷ state_is started ∷ []))

unfoldable pub add_task : Task → Exec Database (Unit {0})
add_task task = create_task task

unfoldable pub get_task : String → Exec Database (Option Task)
get_task pk = do rows ← find_tasks 0 1 (task_pk_equals pk); pure (first_row rows)

-- None, one, or more rows with the execution's id.
abbrev pub only_row : String → List Task → Exec Database (Option Task)
only_row exec_job_id [] = pure none
only_row exec_job_id (row ∷ []) = pure (some row)
only_row exec_job_id (row ∷ other ∷ rows) = raise (duplicate_primary_key "task" exec_job_id)

unfoldable pub get_task_by_execution_job_id : String → Exec Database (Option Task)
get_task_by_execution_job_id exec_job_id = do
  rows ← find_tasks 0 2 (equals execution_job_id_column (text exec_job_id))
  only_row exec_job_id rows

unfoldable pub get_tasks_for_scheduled_job :
    ScheduledJob → List TaskState → ℕ → Exec Database (List Task)
get_tasks_for_scheduled_job scheduled_job states limit =
    find_tasks 0 limit
      (and_conditional (equals schedule_column (text scheduled_job.pk) ∷ state_in states ∷ []))

-- What `markTaskState` does when its conditional update found no row to change.
abbrev pub deny_found : String → TaskState → TaskState → Option Task → Exec Database (Unit {0})
deny_found pk expected new_state none = raise (task_not_found pk)
deny_found pk expected new_state (some task) = raise (invalid_task_state task new_state expected)

unfoldable pub mark_task_state :
    String → TaskState → TaskState → List TaskChange → Exec Database (Unit {0})
mark_task_state pk expected_current_state new_state extra = do
  count ← update_task pk (extra ++ set_state new_state ∷ []) (state_is expected_current_state)
  if ltb 0 count then pure tt else do
    tasks ← find_tasks 0 1 (task_pk_equals pk)
    deny_found pk expected_current_state new_state (first_row tasks)

unfoldable pub mark_task_queued : Task → Date → Exec Database (Unit {0})
mark_task_queued task now =
    mark_task_state task.pk pending queued (set_execution_queued (some now) ∷ [])

unfoldable pub mark_task_started : Task → Date → String → Exec Database (Unit {0})
mark_task_started task now execution_id =
    mark_task_state task.pk queued started
      (set_execution_started (some now) ∷ set_execution_job_id (some execution_id) ∷ [])

unfoldable pub mark_task_start_failed : Task → Date → String → Exec Database (Unit {0})
mark_task_start_failed task now reason =
    mark_task_state task.pk queued start_error
      (set_execution_started (some now) ∷ set_completed_info (some reason) ∷ [])

unfoldable pub mark_task_completed : Task → Date → String → Exec Database (Unit {0})
mark_task_completed task now info =
    mark_task_state task.pk started completed
      (set_execution_finished (some now) ∷ set_completed_info (some info) ∷ [])

unfoldable pub mark_task_skipped : Task → Date → Exec Database (Unit {0})
mark_task_skipped task now =
    mark_task_state task.pk queued completed
      (set_execution_finished (some now) ∷ set_completed_info (some "{\"skipped\":true}") ∷ [])

unfoldable pub mark_task_failed :
    Task → Date → TaskState → TaskState → String → Exec Database (Unit {0})
mark_task_failed task now expected_current_state failed_state info =
    mark_task_state task.pk expected_current_state failed_state
      (set_execution_finished (some now) ∷ set_completed_info (some info) ∷ [])

-- The states of a task that has ended.
abbrev pub finished_states : List TaskState
finished_states = complete_error ∷ failed ∷ fail_restarted ∷ start_error ∷ completed ∷ []

unfoldable pub delete_finished_task : Task → Exec Database Bool
delete_finished_task task = do
  count ← remove_task task.pk (state_in finished_states)
  pure (ltb 0 count)
