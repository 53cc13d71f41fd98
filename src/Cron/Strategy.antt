-- ===== src/Cron/Strategy.antt =====
-- packages/core/src/lib/strategies/task-creation/cron/strategy.ts and index.ts, and
-- strategies/task-creation/once.ts: the strategies that read a schedule's definition and name the
-- time of its next task.
pub mod Runs
use Prim.Native.String.{◌++◌ as text_append}
use tern_scheduler.Prelude.{
  ℕ, String, Bool, true, false, Option, none, some, List, [], ◌∷◌, ℤ, pos, if◌then◌else◌,
}
use tern_scheduler.Model.Schedule.{ScheduledJob}
use tern_scheduler.Errors.{Error, invalid_schedule_definition}
use tern_scheduler.Errors.Exec.{Result, ok, err}
use tern_scheduler.Cron.Calendar.{DateTime, TimeStruct, from_time_struct}
use tern_scheduler.Cron.Text.{Text}
use tern_scheduler.Cron.Expression.{
  Conversion, converted, invalid_argument, unconverted, cron_to_model,
}
use tern_scheduler.Cron.Next.{
  CronModel, ScheduleCronModel, CronTime, at, never, invalid_date, endless, next_cron_time,
}

-- index.ts: cronToDefinition, with what cronToModel throws.
abbrev pub in_utc : CronModel → ScheduleCronModel
in_utc model = record {
  cron = model;
  utc_offset_minutes = pos 0;
  start_after = none;
  end_by = none;
}

pub data Definition : Type 0 where
  defined : ScheduleCronModel → Definition
  refused : Definition
  undefined : Definition

abbrev pub in_utc_definition : Conversion → Definition
in_utc_definition (converted model) = defined (in_utc model)
in_utc_definition invalid_argument = refused
in_utc_definition unconverted = undefined

unfoldable pub cron_to_definition : Text → Definition
cron_to_definition expression = in_utc_definition (cron_to_model expression)

-- `JSON.parse` of a definition: it throws, with the error's text, or it gives a value that the
-- strategy's test accepts, or any other value.
pub data Parsed (M : Type 0) : Type 0 where
  not_json : String → Parsed M
  accepted : M → Parsed M
  other_value : Parsed M

abbrev pub definition_of : {M : Type 0} → String → ScheduledJob → Parsed M → Result M
definition_of strategy schedule (not_json e) = err (
    invalid_schedule_definition schedule.pk schedule.schedule_definition
      (text_append "Not valid json: " e))
definition_of strategy schedule (accepted m) = ok m
definition_of strategy schedule other_value = err (
    invalid_schedule_definition schedule.pk schedule.schedule_definition
      (text_append "Not valid \"" (text_append strategy "\" schedule definition")))

abbrev pub none_scheduled : ScheduledJob → Error
none_scheduled schedule =
    invalid_schedule_definition schedule.pk schedule.schedule_definition
      "No first scheduled time within 10 years"

-- A date is invalid or not; a call that does not return has no date.
pub data RunAt : Type 0 where
  run_at : DateTime → RunAt
  run_at_invalid : RunAt
  no_return : RunAt

abbrev pub first_run : ScheduledJob → CronTime → Result RunAt
first_run schedule (at t) = ok (run_at t)
first_run schedule never = err (none_scheduled schedule)
first_run schedule invalid_date = ok run_at_invalid
first_run schedule endless = ok no_return

pub data CronAction : Type 0 where
  disable_schedule : CronAction
  queue_task : RunAt → CronAction

abbrev pub next_run : CronTime → CronAction
next_run (at t) = queue_task (run_at t)
next_run never = disable_schedule
next_run invalid_date = queue_task run_at_invalid
next_run endless = queue_task no_return

abbrev pub on_result : {A B : Type 0} → Result A → (A → Result B) → Result B
on_result (ok a) f = f a
on_result (err e) f = err e

module _ (parse : String → Parsed ScheduleCronModel) where
  unfoldable pub cron_definition : ScheduledJob → Result ScheduleCronModel
  cron_definition schedule = definition_of "cron" schedule (parse schedule.schedule_definition)

  -- CronTaskCreationStrategy
  unfoldable pub create_from_new_cron : DateTime → ScheduledJob → Result RunAt
  create_from_new_cron now schedule =
      on_result (cron_definition schedule) (λ model. first_run schedule (next_cron_time model now))

  unfoldable pub create_after_cron_starts : DateTime → ScheduledJob → Result CronAction
  create_after_cron_starts now schedule =
      on_result (cron_definition schedule) (λ model. ok (next_run (next_cron_time model now)))

-- once.ts
pub record ScheduleOnceModel : Type 0 where
  pub execute_at : TimeStruct

module _ (parse : String → Parsed ScheduleOnceModel) where
  -- OnceTascCreationStrategy
  unfoldable pub create_from_new_once : DateTime → ScheduledJob → Result DateTime
  create_from_new_once now schedule =
      on_result (definition_of "once" schedule (parse schedule.schedule_definition))
        (λ once. ok (from_time_struct once.execute_at))
