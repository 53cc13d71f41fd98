-- ===== src/Model/Schedule.antt =====
-- packages/core/src/lib/model/schedule.ts, and the two lease columns that
-- datastore/db-api.ts adds (ScheduledJobDataModel).
use tern_scheduler.Prelude.{String, Bool, Option}
use tern_scheduler.Model.Value.{Date, ScheduleState, Value, text, flag, time, job_state, nullable}

-- `repairState` is declared as a string; the store only ever copies update states into it.
pub record ScheduledJob : Type 0 where
  pub pk : String
  pub update_state : Option ScheduleState
  pub update_task_pk : Option String
  pub pasture : Bool
  pub pasture_reason : Option String
  pub display_name : String
  pub description : String
  pub created_on : Date
  pub duplicate_strategy : String
  pub retry_strategy : String
  pub job_name : String
  pub job_context : String
  pub task_creation_strategy : String
  pub schedule_definition : String
  pub previous_schedule : Option String
  pub previous_reason : Option String
  pub repair_state : Option ScheduleState
  pub lease_owner : Option String
  pub lease_expires : Option Date

-- The columns that the store's conditions read.
pub data JobColumn : Type 0 where
  pk_column update_state_column pasture_column lease_expires_column lease_owner_column : JobColumn

abbrev pub read_job : ScheduledJob → JobColumn → Value
read_job j pk_column = text j.pk
read_job j update_state_column = nullable job_state j.update_state
read_job j pasture_column = flag j.pasture
read_job j lease_expires_column = nullable time j.lease_expires
read_job j lease_owner_column = nullable text j.lease_owner

-- One property of a `Partial<ScheduledJobDataModel>` with its value.
pub data JobChange : Type 0 where
  set_pk : String → JobChange
  set_update_state : Option ScheduleState → JobChange
  set_update_task_pk : Option String → JobChange
  set_pasture : Bool → JobChange
  set_pasture_reason : Option String → JobChange
  set_lease_owner : Option String → JobChange
  set_lease_expires : Option Date → JobChange
  set_repair_state : Option ScheduleState → JobChange

-- `r[key] = nv[key]` for every key but `pk`.
abbrev pub write_job : JobChange → ScheduledJob → ScheduledJob
write_job (set_pk v) j = j
write_job (set_update_state v) j = record j { update_state = v }
write_job (set_update_task_pk v) j = record j { update_task_pk = v }
write_job (set_pasture v) j = record j { pasture = v }
write_job (set_pasture_reason v) j = record j { pasture_reason = v }
write_job (set_lease_owner v) j = record j { lease_owner = v }
write_job (set_lease_expires v) j = record j { lease_expires = v }
write_job (set_repair_state v) j = record j { repair_state = v }
