-- ===== src/Model/Value.antt =====
-- The values that a column of a row holds (packages/core/src/lib/model, datastore/db-api.ts), and
-- the state constants of the two models.

use tern_scheduler.Prelude.{
  ℕ, String, Bool, true, false, Option, none, some, ℤ, ◌==◌, same, ◌≡◌, arith,
}

-- A `Date`, by its time value: milliseconds since the epoch.
abbrev pub Date : Type 0
Date = ℤ

pub data ScheduleState : Type 0 where
  add_task start_task end_task pasture repair : ScheduleState

pub data TaskState : Type 0 where
  pending queued started start_error complete_queued complete_error failed fail_restarted
        completed :
      TaskState

abbrev pub schedule_state_code : ScheduleState → ℕ
schedule_state_code add_task = 0
schedule_state_code start_task = 1
schedule_state_code end_task = 2
schedule_state_code pasture = 3
schedule_state_code repair = 4

abbrev pub task_state_code : TaskState → ℕ
task_state_code pending = 0
task_state_code queued = 1
task_state_code started = 2
task_state_code start_error = 3
task_state_code complete_queued = 4
task_state_code complete_error = 5
task_state_code failed = 6
task_state_code fail_restarted = 7
task_state_code completed = 8

-- `===` on state constants, which are pairwise distinct strings.
abbrev pub same_task_state : TaskState → TaskState → Bool
same_task_state s t = task_state_code s == task_state_code t

abbrev pub same_schedule_state : ScheduleState → ScheduleState → Bool
same_schedule_state s t = schedule_state_code s == schedule_state_code t

-- What `record[key]` yields.
pub data Value : Type 0 where
  null : Value
  text : String → Value
  flag : Bool → Value
  time : Date → Value
  number : ℕ → Value
  job_state : ScheduleState → Value
  task_state : TaskState → Value

abbrev pub same_flag : Bool → Bool → Bool
same_flag true b = b
same_flag false true = false
same_flag false false = true

-- `===`. Two `Date` objects are never the same object here: rows keep their own.
abbrev pub strict_eq : Value → Value → Bool
strict_eq null null = true
strict_eq (text s) (text t) = same s t
strict_eq (flag a) (flag b) = same_flag a b
strict_eq (number m) (number n) = m == n
strict_eq (job_state s) (job_state t) = same_schedule_state s t
strict_eq (task_state s) (task_state t) = same_task_state s t
strict_eq _ _ = false

abbrev pub nullable {ℓ} : {A : Type ℓ} → (A → Value) → Option A → Value
nullable f none = null
nullable f (some a) = f a

pub eq_of_same_task_state : (s t : TaskState) → same_task_state s t ≡ true → s ≡ t
eq_of_same_task_state s t h = ground arith
