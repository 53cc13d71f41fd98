-- ===== src/Store/Database.antt =====
-- class MemoryDatabase of packages/core/src/lib/datastore/memory.ts, the table calls of
-- datastore/db-impl.ts, and its date and condition helpers.
pub mod Laws
pub mod Fresh
use tern_scheduler.Prelude.{
  ℕ, zero, suc, ◌*◌, ◌-◌, String, Option, none, some, List, [], ◌∷◌, ℤ, pos, negsuc, ◌+ℤ◌, refl,
  ◌≡◌, Bool, true, false,
}
use tern_scheduler.Model.Value.{Date, Value, text}
use tern_scheduler.Model.Schedule.{
  ScheduledJob, JobColumn, JobChange, read_job, write_job, set_pk, set_update_state,
  set_update_task_pk, set_pasture, set_pasture_reason, set_lease_owner, set_lease_expires,
  set_repair_state,
}
use tern_scheduler.Model.Task
use tern_scheduler.Model.Task.{Task, TaskColumn, TaskChange, read_task, write_task}
use tern_scheduler.Errors.{Error, duplicate_primary_key}
use tern_scheduler.Errors.Exec.{Result, ok, err, Exec}
use tern_scheduler.Db.Conditional.{Conditional, Conditionals, equals, all_of, nil, cons}
use tern_scheduler.Db.MemTable
use tern_scheduler.Db.MemTable.{Model, MemTable}

pub write_job-pk : (c : JobChange) (j : ScheduledJob) → (write_job c j).pk ≡ j.pk
write_job-pk (set_pk v) j = refl
write_job-pk (set_update_state v) j = refl
write_job-pk (set_update_task_pk v) j = refl
write_job-pk (set_pasture v) j = refl
write_job-pk (set_pasture_reason v) j = refl
write_job-pk (set_lease_owner v) j = refl
write_job-pk (set_lease_expires v) j = refl
write_job-pk (set_repair_state v) j = refl

pub write_task-pk : (c : TaskChange) (t : Task) → (write_task c t).pk ≡ t.pk
write_task-pk (TaskChange.set_pk v) t = refl
write_task-pk (TaskChange.set_state v) t = refl
write_task-pk (TaskChange.set_execution_job_id v) t = refl
write_task-pk (TaskChange.set_execution_queued v) t = refl
write_task-pk (TaskChange.set_execution_started v) t = refl
write_task-pk (TaskChange.set_execution_finished v) t = refl
write_task-pk (TaskChange.set_completed_info v) t = refl

abbrev pub job_model : Model
job_model = record {
  Row = ScheduledJob;
  Column = JobColumn;
  Change = JobChange;
  key = λ j. j.pk;
  read = read_job;
  write = write_job;
  write_key = write_job-pk;
}

abbrev pub task_model : Model
task_model = record {
  Row = Task;
  Column = TaskColumn;
  Change = TaskChange;
  key = λ t. t.pk;
  read = read_task;
  write = write_task;
  write_key = write_task-pk;
}

pub record Database : Type 0 where
  pub jobs : MemTable job_model
  pub tasks : MemTable task_model

abbrev pub empty_database : Database
empty_database = record { jobs = MemTable.empty job_model; tasks = MemTable.empty task_model }

-- Both tables are constructed with this name.
abbrev pub table_name : String
table_name = "ScheduledJob"

-- `.create(row)` with its promise.
abbrev pub created : Bool → String → Result (Unit {0})
created true pk = ok tt
created false pk = err (duplicate_primary_key table_name pk)

unfoldable pub create_job : ScheduledJob → Exec Database (Unit {0})
create_job row db =
    let (done, jobs) = MemTable.create job_model row db.jobs in
    (created done row.pk, record db { jobs = jobs })

unfoldable pub update_job : String → List JobChange → Conditional JobColumn → Exec Database ℕ
update_job pk changes c db =
    let (count, jobs) = MemTable.conditional_update job_model pk changes (some c) db.jobs in
    (ok count, record db { jobs = jobs })

unfoldable pub find_jobs : ℕ → ℕ → Conditional JobColumn → Exec Database (List ScheduledJob)
find_jobs start count c db = (ok (MemTable.find job_model start count (some c) db.jobs), db)

unfoldable pub remove_job : String → Conditional JobColumn → Exec Database ℕ
remove_job pk c db =
    let (count, jobs) = MemTable.remove job_model pk (some c) db.jobs in
    (ok count, record db { jobs = jobs })

unfoldable pub create_task : Task → Exec Database (Unit {0})
create_task row db =
    let (done, tasks) = MemTable.create task_model row db.tasks in
    (created done row.pk, record db { tasks = tasks })

unfoldable pub update_task : String → List TaskChange → Conditional TaskColumn → Exec Database ℕ
update_task pk changes c db =
    let (count, tasks) = MemTable.conditional_update task_model pk changes (some c) db.tasks in
    (ok count, record db { tasks = tasks })

unfoldable pub find_tasks : ℕ → ℕ → Conditional TaskColumn → Exec Database (List Task)
find_tasks start count c db = (ok (MemTable.find task_model start count (some c) db.tasks), db)

unfoldable pub remove_task : String → Conditional TaskColumn → Exec Database ℕ
remove_task pk c db =
    let (count, tasks) = MemTable.remove task_model pk (some c) db.tasks in
    (ok count, record db { tasks = tasks })

-- `pkEquals(pk)` for each of the tables.
abbrev pub job_pk_equals : String → Conditional JobColumn
job_pk_equals pk = equals JobColumn.pk_column (text pk)

abbrev pub task_pk_equals : String → Conditional TaskColumn
task_pk_equals pk = equals TaskColumn.pk_column (text pk)

abbrev pub and_conditions : {K : Type 0} → List (Conditional K) → Conditionals K
and_conditions [] = nil
and_conditions (c ∷ cs) = cons c (and_conditions cs)

-- `sjAnd(conditionals)`, `new AndConditional(conditionals)`
abbrev pub and_conditional : {K : Type 0} → List (Conditional K) → Conditional K
and_conditional cs = all_of (and_conditions cs)

abbrev pub seconds_to_millis : ℤ → ℤ
seconds_to_millis (pos n) = pos (n * 1000)
seconds_to_millis (negsuc n) = negsuc (suc n * 1000 - 1)

abbrev pub negate : ℕ → ℤ
negate zero = pos 0
negate (suc n) = negsuc n

-- `updateDate(date, increaseSeconds)`, where the process's zone has a fixed offset.
unfoldable pub update_date : Date → ℤ → Date
update_date date increase_seconds = date +ℤ seconds_to_millis increase_seconds
