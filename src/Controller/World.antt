-- ===== src/Controller/World.antt =====
-- What the operations of packages/core/src/lib/controller act on, and what they are configured
-- with (LeaseBehavior of schedule.ts, the arguments of combined.ts, messaging/api.ts,
-- executor/types.ts).
use tern_scheduler.Prelude.{
  ℕ, suc, String, Bool, true, false, Option, none, some, List, [], ◌∷◌, ◌++◌, same, if◌then◌else◌,
}
use tern_scheduler.Model.Value.{Date, TaskState}
use tern_scheduler.Model.Schedule.{ScheduledJob}
use tern_scheduler.Model.Task.{Task}
use tern_scheduler.Errors.{Error}
use tern_scheduler.Errors.Exec.{Result, ok, Exec}
use tern_scheduler.Store.Database.{Database}
use tern_scheduler.Strategies.{
  Registry, TaskCreationStrategy, DuplicateTaskStrategy, RetryTaskStrategy,
}

-- executor/types.ts. `unknown` is a state that is none of the four constants.
pub data JobExecutionState : Type 0 where
  running : String → JobExecutionState
  did_not_start : Option String → JobExecutionState
  completed : String → Option String → JobExecutionState
  failed : String → Option String → JobExecutionState
  unknown : String → JobExecutionState

-- The events of messaging/api.ts that the controller emits.
pub data Event : Type 0 where
  scheduled_job_disabled : ScheduledJob → Event
  invalid_schedule : ScheduledJob → Event
  general_error : Error → Event
  internal_error : String → Event
  task_created : Task → Event
  task_running : Task → String → Event
  task_finished : Task → Event
  task_start_no_lease : Task → Option String → Event
  task_finished_no_lease : Task → Option String → JobExecutionState → Event
  task_finished_not_updated : Task → TaskState → JobExecutionState → Event

-- The store, the events emitted so far, and how often the clock was read and each kind of
-- identifier was asked for.
pub record World : Type 0 where
  pub db : Database
  pub events : List Event
  pub clock_reads : ℕ
  pub keys_made : ℕ
  pub leases_made : ℕ

-- What the configuration supplies. `create_primary_key n`, `lease_owner n` and `current_time n`
-- are what the strategies answer on their n-th call; `wait s` is what everything else does to the
-- world in the `s` seconds before a retry; `start_job` is the job execution framework, which may
-- call back into the scheduler; `error_text` is `String(e)`.
pub record Env : Type 0 where
  pub create_primary_key : ℕ → String
  pub lease_owner : ℕ → String
  pub current_time : ℕ → Date
  pub lease_time_seconds : ℕ
  pub retry_seconds_delay : List ℕ
  pub wait : ℕ → World → World
  pub start_job : String → String → String → World → Result JobExecutionState × World
  pub error_text : Error → String
  pub retry_registry : Registry RetryTaskStrategy
  pub task_creation_registry : Registry TaskCreationStrategy
  pub duplicate_task_registry : Registry DuplicateTaskStrategy

-- A step of the store, within the world.
abbrev pub within : {A : Type 0} → Result A × Database → World → Result A × World
within (r, db) w = (r, record w { db = db })

unfoldable pub on_store : {A : Type 0} → Exec Database A → Exec World A
on_store m w = within (m w.db) w

-- `messaging.emit(...)`
abbrev pub emit : Event → Exec World (Unit {0})
emit e w = (ok tt, record w { events = w.events ++ e ∷ [] })

abbrev pub emit_if : Bool → Event → Exec World (Unit {0})
emit_if true e w = emit e w
emit_if false e w = (ok tt, w)

-- `currentTimeUTC()`
abbrev pub read_clock : Env → Exec World Date
read_clock env w =
    (ok (env.current_time w.clock_reads), record w { clock_reads = suc w.clock_reads })

-- `createPrimaryKeyStrat()`
abbrev pub make_key : Env → Exec World String
make_key env w = (ok (env.create_primary_key w.keys_made), record w { keys_made = suc w.keys_made })

-- `leaseBehavior.leaseOwnerStrategy()`
abbrev pub make_lease_id : Env → Exec World String
make_lease_id env w =
    (ok (env.lease_owner w.leases_made), record w { leases_made = suc w.leases_made })

-- `s || null`
abbrev pub or_null : Option String → Option String
or_null none = none
or_null (some s) = if same s "" then none else some s

-- `s || ''`
abbrev pub or_empty : Option String → String
or_empty none = ""
or_empty (some s) = s
