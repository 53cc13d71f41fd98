-- ===== src/Model/Task.antt =====
-- packages/core/src/lib/model/task.ts.
use tern_scheduler.Prelude.{ℕ, String, Option}
use tern_scheduler.Model.Value.{Date, TaskState, Value, text, time, task_state, nullable}

pub record Task : Type 0 where
  pub pk : String
  pub schedule : String
  pub state : TaskState
  pub created_on : Date
  pub execute_at : Date
  pub execution_job_id : Option String
  pub execution_queued : Option Date
  pub execution_started : Option Date
  pub execution_finished : Option Date
  pub next_timeout_check : Option Date
  pub retry_index : ℕ
  pub completed_info : Option String

-- The columns that the store's conditions read.
pub data TaskColumn : Type 0 where
  pk_column schedule_column state_column execute_at_column execution_queued_column
        execution_started_column execution_job_id_column :
      TaskColumn

abbrev pub read_task : Task → TaskColumn → Value
read_task t pk_column = text t.pk
read_task t schedule_column = text t.schedule
read_task t state_column = task_state t.state
read_task t execute_at_column = time t.execute_at
read_task t execution_queued_column = nullable time t.execution_queued
read_task t execution_started_column = nullable time t.execution_started
read_task t execution_job_id_column = nullable text t.execution_job_id

-- One property of a `Partial<TaskDataModel>` with its value.
pub data TaskChange : Type 0 where
  set_pk : String → TaskChange
  set_state : TaskState → TaskChange
  set_execution_job_id : Option String → TaskChange
  set_execution_queued : Option Date → TaskChange
  set_execution_started : Option Date → TaskChange
  set_execution_finished : Option Date → TaskChange
  set_completed_info : Option String → TaskChange

-- `r[key] = nv[key]` for every key but `pk`.
abbrev pub write_task : TaskChange → Task → Task
write_task (set_pk v) t = t
write_task (set_state v) t = record t { state = v }
write_task (set_execution_job_id v) t = record t { execution_job_id = v }
write_task (set_execution_queued v) t = record t { execution_queued = v }
write_task (set_execution_started v) t = record t { execution_started = v }
write_task (set_execution_finished v) t = record t { execution_finished = v }
write_task (set_completed_info v) t = record t { completed_info = v }
