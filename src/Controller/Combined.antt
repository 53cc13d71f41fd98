-- ===== src/Controller/Combined.antt =====
-- packages/core/src/lib/controller/combined.ts: creating a scheduled job with its first task,
-- starting a task, finishing it, retrying it, and disabling a scheduled job.
pub mod Created
use tern_scheduler.Prelude.{ℕ, String, Bool, true, false, Option, none, some, List, [], ◌∷◌}
use tern_scheduler.Model.Value.{Date, pending, started}
use tern_scheduler.Model.Schedule.{ScheduledJob}
use tern_scheduler.Model.Task.{Task}
use tern_scheduler.Errors.Exec.{Exec, pure, lift, ◌>>=◌, ◌>>◌}
use tern_scheduler.Store.Database.{update_date}
use tern_scheduler.Store.Tasks.{
  get_tasks_for_scheduled_job, get_task_by_execution_job_id, mark_task_queued, mark_task_started,
  mark_task_start_failed, mark_task_completed, mark_task_skipped, mark_task_failed,
}
use tern_scheduler.Store.Tasks
use tern_scheduler.Strategies
use tern_scheduler.Strategies.{
  TaskCreationStrategy, TaskCreationAction, after_finish, after_start, after_new, disable, queue,
  create_from_new_schedule,
}
use tern_scheduler.Controller.World.{
  World, Env, on_store, emit, make_key, task_created, task_finished,
}
use tern_scheduler.Controller.Schedule.{
  NewScheduledJob, LeaseExit, exit_value, create_scheduled_job_alone,
}

-- A task as it is when it is made.
abbrev pub new_task : String → String → Date → Date → Task
new_task pk schedule now execute_at = record {
  pk = pk;
  schedule = schedule;
  state = pending;
  created_on = now;
  execute_at = execute_at;
  execution_job_id = none;
  execution_queued = none;
  execution_started = none;
  execution_finished = none;
  next_timeout_check = none;
  retry_index = 0;
  completed_info = none;
}

-- The operation that createScheduledJob runs under the lease.
unfoldable pub create_first_task :
    Env → NewScheduledJob → Date → ScheduledJob → String → Exec World (LeaseExit String)
create_first_task env schedule now sched created_task_pk = do
  strat ← lift (Strategies.get schedule.task_creation_strategy env.task_creation_registry)
  task_run_date ← lift (create_from_new_schedule strat now sched)
  let task = new_task created_task_pk sched.pk now task_run_date
  on_store (Tasks.add_task task)
  emit (task_created task)
  pure (exit_value sched.pk false none)

unfoldable pub create_scheduled_job : Env → NewScheduledJob → Date → Exec World String
create_scheduled_job env schedule now =
    create_scheduled_job_alone env schedule now (create_first_task env schedule now)

unfoldable pub should_skip_task : Env → ScheduledJob → Task → Exec World Bool
should_skip_task env sched task_to_run = do
  dup ← lift (Strategies.get sched.duplicate_strategy env.duplicate_task_registry)
  running_tasks ←
      on_store (get_tasks_for_scheduled_job sched (started ∷ []) dup.duplicate_find_count)
  pure (dup.should_skip sched running_tasks task_to_run)

abbrev pub duplicate_pending_task_limit : ℕ
duplicate_pending_task_limit = 15

-- Adds the task, unless the schedule has a pending one already. It answers with the new task, or
-- with the old one.
abbrev pub add_unless_pending :
    Env → Date → ScheduledJob → Task → Date → List Task → Exec World Task
add_unless_pending env now sched task execute_at (pending_task ∷ others) = do
  emit (task_finished task)
  pure task
add_unless_pending env now sched task execute_at [] = do
  pk ← make_key env
  let next = new_task pk sched.pk now execute_at
  on_store (Tasks.add_task next)
  emit (task_created next)
  emit (task_finished task)
  pure next

unfoldable pub add_task_duplicate_check : Env → Date → ScheduledJob → Task → Date → Exec World Task
add_task_duplicate_check env now sched task execute_at = do
  queued_tasks ←
      on_store (get_tasks_for_scheduled_job sched (pending ∷ []) duplicate_pending_task_limit)
  add_unless_pending env now sched task execute_at queued_tasks

-- What the steps of starting or finishing a task hand on: a task or null, and whether to pasture.
pub record CurrentTask : Type 0 where
  pub value : Option Task
  pub pasture : Bool

abbrev pub queue_next :
    Env → Date → ScheduledJob → Task → TaskCreationAction → Exec World CurrentTask
queue_next env now sched task disable = pure (record { value = none; pasture = true })
queue_next env now sched task (queue run_at) = do
  next ← add_task_duplicate_check env now sched task run_at
  pure (record { value = some next; pasture = false })

-- No retry: another task may follow the failed one.
abbrev pub after_failure :
    Env → Date → ScheduledJob → Task → TaskCreationStrategy → Exec World CurrentTask
after_failure env now sched task (after_finish create next) = do
  action ← lift (next now sched)
  queue_next env now sched task action
after_failure env now sched task _ = do
  emit (task_finished task)
  pure (record { value = some task; pasture = false })

unfoldable pub retry_task : Env → Date → ScheduledJob → Task → String → Exec World CurrentTask
retry_task env now sched task failure_reason = do
  strategy ← lift (Strategies.get sched.retry_strategy env.retry_registry)
  elim (strategy sched task failure_reason) [
    | none ↦ do
      creation ← lift (Strategies.get sched.task_creation_strategy env.task_creation_registry)
      after_failure env now sched task creation
    | some retry_in_seconds ↦ do
      next ← add_task_duplicate_check env now sched task (update_date now retry_in_seconds)
      pure (record { value = some next; pasture = false })
  ]
