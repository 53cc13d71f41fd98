-- ===== src/Wire/Events.antt =====
-- packages/core/src/lib/wire: what a node does on the events of its polls and of the job execution
-- framework (wire-events.ts), and the polls themselves (poll-schedule.ts, poll-task.ts).
pub mod Due
use tern_scheduler.Prelude.{ℕ, String, List, [], ◌∷◌}
use tern_scheduler.Model.Value.{Date}
use tern_scheduler.Model.Schedule.{ScheduledJob}
use tern_scheduler.Model.Task.{Task}
use tern_scheduler.Errors.{Error}
use tern_scheduler.Errors.Exec.{Result, ok, err, Exec, pure, raise, ◌>>=◌, ◌>>◌, catch}
use tern_scheduler.Store.Database.{Database}
use tern_scheduler.Store.Jobs.{poll_lease_expired_scheduled_jobs}
use tern_scheduler.Store.Tasks.{
  poll_executable_tasks, poll_long_queued_tasks, poll_long_executing_tasks,
}
use tern_scheduler.Controller.World.{
  World, Env, JobExecutionState, general_error, emit, on_store, read_clock,
}
use tern_scheduler.Controller.Running.{start_task_now, task_finished_now}
use tern_scheduler.Controller.Repair.{repair_expired_schedule}

-- The events that wireDataStore listens to and answers with more than a line of the log.
pub data Message : Type 0 where
  scheduled_job_lease_expired : ScheduledJob → Message
  task_ready_to_execute : Task → Message
  task_executing_long : Task → Message
  task_queued_long : Task → Message
  job_execution_finished : String → JobExecutionState → Message

-- `.catch((e) => { messaging.emit('generalError', e) })`
unfoldable pub report_error : Exec World (Unit {0}) → Exec World (Unit {0})
report_error m = catch m (λ e. emit (general_error e))

-- The `.catch` is called on the promise of taskFinished: what the call itself throws leaves the
-- listener.
unfoldable pub finished_reported : Result (Exec World (Unit {0})) → Exec World (Unit {0})
finished_reported (ok m) = report_error m
finished_reported (err e) = raise e

-- wireDataStore. `err` stands for what a listener throws.
unfoldable pub on_message : Env → Message → Exec World (Unit {0})
on_message env (scheduled_job_lease_expired schedule) = do
  now ← read_clock env
  report_error (repair_expired_schedule env schedule now)
on_message env (task_ready_to_execute task) = do
  now ← read_clock env
  report_error (start_task_now env task now)
on_message env (task_executing_long task) = pure tt
on_message env (task_queued_long task) = pure tt
on_message env (job_execution_finished exec_id result) = do
  now ← read_clock env
  finished_reported (task_finished_now env exec_id result now)

-- `rows.forEach((row) => { messaging.emit(..., row) })`, with each listener run to its end before the
-- next event.
unfoldable pub emit_each : {R : Type 0} → Env → (R → Message) → List R → Exec World (Unit {0})
emit_each env message [] = pure tt
emit_each env message (row ∷ rows) = on_message env (message row) >> emit_each env message rows

abbrev pub poll_limit : ℕ
poll_limit = 10

-- What the polls hand to pollLoop. `now` is the system's clock.
unfoldable pub poll_rows :
    {R : Type 0} → Env → (R → Message) → Exec Database (List R) → Exec World (Unit {0})
poll_rows env message poll = report_error (on_store poll >>= emit_each env message)

unfoldable pub poll_scheduled_jobs_for_expired_leases : Env → Exec World (Unit {0})
poll_scheduled_jobs_for_expired_leases env = do
  now ← read_clock env
  poll_rows env scheduled_job_lease_expired (poll_lease_expired_scheduled_jobs now poll_limit)

unfoldable pub poll_task_ready_to_execute : Env → Date → Exec World (Unit {0})
poll_task_ready_to_execute env now =
    poll_rows env task_ready_to_execute (poll_executable_tasks now poll_limit)

unfoldable pub poll_tasks_queued_long : Env → ℕ → Date → Exec World (Unit {0})
poll_tasks_queued_long env timeout_seconds now =
    poll_rows env task_queued_long (poll_long_queued_tasks now timeout_seconds poll_limit)

unfoldable pub poll_tasks_executing_long : Env → ℕ → Date → Exec World (Unit {0})
poll_tasks_executing_long env timeout_seconds now =
    poll_rows env task_executing_long (poll_long_executing_tasks now timeout_seconds poll_limit)
