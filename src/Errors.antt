-- ===== src/Errors.antt =====
-- packages/core/src/lib/errors: what a promise is rejected with, and promise chains.
pub mod Exec
use tern_scheduler.Prelude.{String, Option, Bool, true, false}
use tern_scheduler.Model.Value.{Date, TaskState}
use tern_scheduler.Model.Schedule.{ScheduledJob}
use tern_scheduler.Model.Task.{Task}

-- `other` is an error that code outside the repository raises, by its text.
pub data Error : Type 0 where
  lease_not_obtained : String → ScheduledJob → Option String → Option Date → Error
  lease_not_owned : String → ScheduledJob → Option String → Option Date → Error
  scheduled_job_not_found : String → Error
  task_not_found : String → Error
  invalid_task_state : Task → TaskState → TaskState → Error
  invalid_job_execution_status : String → Error
  duplicate_primary_key : String → String → Error
  invalid_schedule_definition : String → String → String → Error
  strategy_not_registered : String → String → Error
  tern_error : String → Error
  other : String → Error

-- The classes of packages/core/src/lib/errors, and `plain` for all that is none of them.
pub data ErrorClass : Type 0 where
  lease_not_obtained_error lease_not_owned_error scheduled_job_not_found_error task_not_found_error
        invalid_task_state_error invalid_job_execution_status_error duplicate_primary_key_error
        invalid_schedule_definition_error strategy_not_registered_error tern_class plain :
      ErrorClass

-- The class whose prototype a constructor gives to the error that it makes. The constructor of
-- InvalidScheduleDefinitionError gives it that of StrategyNotRegisteredError.
abbrev pub prototype_of : Error → ErrorClass
prototype_of (lease_not_obtained id job owner expires) = lease_not_obtained_error
prototype_of (lease_not_owned id job owner expires) = lease_not_owned_error
prototype_of (scheduled_job_not_found pk) = scheduled_job_not_found_error
prototype_of (task_not_found pk) = task_not_found_error
prototype_of (invalid_task_state task new expected) = invalid_task_state_error
prototype_of (invalid_job_execution_status state) = invalid_job_execution_status_error
prototype_of (duplicate_primary_key model pk) = duplicate_primary_key_error
prototype_of (invalid_schedule_definition pk definition problem) = strategy_not_registered_error
prototype_of (strategy_not_registered kind name) = strategy_not_registered_error
prototype_of (tern_error message) = tern_class
prototype_of (other text) = plain

-- `e instanceof InvalidScheduleDefinitionError`, a class without subclasses.
abbrev pub is_invalid_schedule_definition : Error → Bool
is_invalid_schedule_definition e = elim (prototype_of e) [
  | invalid_schedule_definition_error ↦ true
  | _ ↦ false
]
