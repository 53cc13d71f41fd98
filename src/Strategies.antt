-- ===== src/Strategies.antt =====
-- packages/core/src/lib/strategies: what the controller asks of the pluggable strategies, and the
-- registry that names them. The strategies of tasks' creation, of duplicates and of retries are
-- functions that the configuration supplies.
use Prim.Native.String.{◌++◌ as text_append}
use tern_scheduler.Prelude.{
  ℕ, String, Bool, false, Option, none, List, [], ◌∷◌, ℤ, same, if◌then◌else◌, length, ltb,
}
use tern_scheduler.Model.Value.{Date}
use tern_scheduler.Model.Schedule.{ScheduledJob}
use tern_scheduler.Model.Task.{Task}
use tern_scheduler.Errors.{Error, other}
use tern_scheduler.Errors.Exec.{Result, ok, err}

pub data TaskCreationAction : Type 0 where
  disable : TaskCreationAction
  queue : Date → TaskCreationAction

-- Each may throw if the schedule's definition is bad.
pub data TaskCreationStrategy : Type 0 where
  after_finish :
      (Date → ScheduledJob → Result Date)
      → (Date → ScheduledJob → Result TaskCreationAction)
      → TaskCreationStrategy
  after_start :
      (Date → ScheduledJob → Result Date)
      → (Date → ScheduledJob → Result TaskCreationAction)
      → TaskCreationStrategy
  after_new : (Date → ScheduledJob → Result Date) → TaskCreationStrategy

abbrev pub create_from_new_schedule : TaskCreationStrategy → Date → ScheduledJob → Result Date
create_from_new_schedule (after_finish create next) = create
create_from_new_schedule (after_start create next) = create
create_from_new_schedule (after_new create) = create

pub record DuplicateTaskStrategy : Type 0 where
  pub duplicate_find_count : ℕ
  pub should_skip : ScheduledJob → List Task → Task → Bool

-- The seconds until a retry, if there is to be one.
abbrev pub RetryTaskStrategy : Type 0
RetryTaskStrategy = ScheduledJob → Task → String → Option ℤ

-- class StrategyRegistryImpl of strategies/index.ts, as the list of its registrations, the last
-- one first.
abbrev pub Registry : Type 0 → Type 0
Registry T = List (String × T)

unfoldable pub register : {T : Type 0} → String → T → Registry T → Registry T
register name strat reg = (name, strat) ∷ reg

abbrev pub no_such_strategy : String → Error
no_such_strategy name = other (text_append "No such registered strategy \"" (text_append name "\""))

unfoldable pub get : {T : Type 0} → String → Registry T → Result T
get name [] = err (no_such_strategy name)
get name ((known, strat) ∷ reg) = if same known name then ok strat else get name reg

abbrev pub always_skip : DuplicateTaskStrategy
always_skip = record {
  duplicate_find_count = 1;
  should_skip = λ schedule active_tasks task. ltb 0 (length active_tasks);
}

abbrev pub always_run : DuplicateTaskStrategy
always_run = record { duplicate_find_count = 1; should_skip = λ schedule active_tasks task. false }

abbrev pub no_retry : RetryTaskStrategy
no_retry schedule task reason = none
