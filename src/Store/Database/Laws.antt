-- ===== src/Store/Database/Laws.antt =====
-- The table calls of packages/core/src/lib/datastore/db-impl.ts, seen through the map from primary
-- keys to rows: their answers and what they change.
use tern_scheduler.Prelude.{String, Option, some, List, if◌then◌else◌, ◌≡◌, ◌≢◌, refl, same}
use tern_scheduler.Model.Schedule.{ScheduledJob, JobColumn, JobChange}
use tern_scheduler.Model.Task.{Task, TaskColumn, TaskChange}
use tern_scheduler.Errors.Exec.{ok}
use tern_scheduler.Db.Conditional.{Conditional, matches_record}
use tern_scheduler.Db.MemTable
use tern_scheduler.Db.MemTable.{passes, write_all}
use tern_scheduler.Db.MemTable.Lookup.{lookup, map_option, lookup_rows-update}
use tern_scheduler.Db.MemTable.Matches.{to_list, hits, find-key, count-conditional_update}
use tern_scheduler.Db.MemTable.Consistent
use tern_scheduler.Store.Database.{
  Database, job_model, task_model, update_job, find_jobs, update_task, find_tasks, job_pk_equals,
  task_pk_equals, remove_task, remove_job, create_job, create_task, empty_database,
}

abbrev pub job_at : String → Database → Option ScheduledJob
job_at pk db = lookup job_model pk db.jobs

abbrev pub task_at : String → Database → Option Task
task_at pk db = lookup task_model pk db.tasks

-- Both tables keep the invariant of a table.
pub record IsConsistent (db : Database) : Type 0 where
  pub jobs_ok : Consistent.IsConsistent job_model db.jobs
  pub tasks_ok : Consistent.IsConsistent task_model db.tasks

-- What an update makes of the row that its key is mapped to.
abbrev pub rewrite_job :
    List JobChange → Conditional JobColumn → Option ScheduledJob → Option ScheduledJob
rewrite_job cs c =
    map_option (λ r. if passes job_model (some c) r then write_all job_model cs r else r)

abbrev pub rewrite_task : List TaskChange → Conditional TaskColumn → Option Task → Option Task
rewrite_task cs c =
    map_option (λ r. if passes task_model (some c) r then write_all task_model cs r else r)

module _ (pk : String) (named : pk ≢ "") where
  pub update_job-count :
      (cs : List JobChange) (c : Conditional JobColumn) (db : Database)
      → IsConsistent db
      → update_job pk cs c db
        ≡ (ok (hits job_model (some c) (job_at pk db)), (update_job pk cs c db).1)
  unfolding update_job
  update_job-count cs c db v =
      rw (count-conditional_update job_model pk cs (some c) db.jobs named v.jobs_ok)

  pub job_at-update_job :
      (cs : List JobChange) (c : Conditional JobColumn) (db : Database) (j : String)
      → job_at j (update_job pk cs c db).1
        ≡ (if same pk j then rewrite_job cs c (job_at j db) else job_at j db)
  unfolding update_job MemTable.conditional_update
  job_at-update_job cs c db j = lookup_rows-update job_model pk j cs (some c) db.jobs.rows named

  pub update_task-count :
      (cs : List TaskChange) (c : Conditional TaskColumn) (db : Database)
      → IsConsistent db
      → update_task pk cs c db
        ≡ (ok (hits task_model (some c) (task_at pk db)), (update_task pk cs c db).1)
  unfolding update_task
  update_task-count cs c db v =
      rw (count-conditional_update task_model pk cs (some c) db.tasks named v.tasks_ok)

  pub task_at-update_task :
      (cs : List TaskChange) (c : Conditional TaskColumn) (db : Database) (j : String)
      → task_at j (update_task pk cs c db).1
        ≡ (if same pk j then rewrite_task cs c (task_at j db) else task_at j db)
  unfolding update_task MemTable.conditional_update
  task_at-update_task cs c db j = lookup_rows-update task_model pk j cs (some c) db.tasks.rows named

pub find_jobs-key :
    (pk : String) (db : Database)
    → find_jobs 0 1 (job_pk_equals pk) db ≡ (ok (to_list (job_at pk db)), db)
unfolding find_jobs matches_record
find_jobs-key pk db = rw (find-key job_model pk (some (job_pk_equals pk)) db.jobs (λ r. refl))

pub find_tasks-key :
    (pk : String) (db : Database)
    → find_tasks 0 1 (task_pk_equals pk) db ≡ (ok (to_list (task_at pk db)), db)
unfolding find_tasks matches_record
find_tasks-key pk db = rw (find-key task_model pk (some (task_pk_equals pk)) db.tasks (λ r. refl))

-- Each table call keeps both tables consistent.
pub empty_database-IsConsistent : IsConsistent empty_database
empty_database-IsConsistent = record {
  jobs_ok = Consistent.empty-IsConsistent job_model;
  tasks_ok = Consistent.empty-IsConsistent task_model;
}

module _ (db : Database) (v : IsConsistent db) where
  pub update_job-IsConsistent :
      (pk : String) (cs : List JobChange) (c : Conditional JobColumn)
      → IsConsistent (update_job pk cs c db).1
  unfolding update_job
  update_job-IsConsistent pk cs c = record {
    jobs_ok = Consistent.update-IsConsistent job_model pk cs (some c) db.jobs v.jobs_ok;
    tasks_ok = v.tasks_ok;
  }

  pub create_job-IsConsistent : (row : ScheduledJob) → IsConsistent (create_job row db).1
  unfolding create_job
  create_job-IsConsistent row = record {
    jobs_ok = Consistent.create-IsConsistent job_model row db.jobs v.jobs_ok;
    tasks_ok = v.tasks_ok;
  }

  pub remove_job-IsConsistent :
      (pk : String) (c : Conditional JobColumn) → IsConsistent (remove_job pk c db).1
  unfolding remove_job
  remove_job-IsConsistent pk c = record {
    jobs_ok = Consistent.remove-IsConsistent job_model pk (some c) db.jobs v.jobs_ok;
    tasks_ok = v.tasks_ok;
  }

  pub update_task-IsConsistent :
      (pk : String) (cs : List TaskChange) (c : Conditional TaskColumn)
      → IsConsistent (update_task pk cs c db).1
  unfolding update_task
  update_task-IsConsistent pk cs c = record {
    jobs_ok = v.jobs_ok;
    tasks_ok = Consistent.update-IsConsistent task_model pk cs (some c) db.tasks v.tasks_ok;
  }

  pub create_task-IsConsistent : (row : Task) → IsConsistent (create_task row db).1
  unfolding create_task
  create_task-IsConsistent row = record {
    jobs_ok = v.jobs_ok;
    tasks_ok = Consistent.create-IsConsistent task_model row db.tasks v.tasks_ok;
  }

  pub remove_task-IsConsistent :
      (pk : String) (c : Conditional TaskColumn) → IsConsistent (remove_task pk c db).1
  unfolding remove_task
  remove_task-IsConsistent pk c = record {
    jobs_ok = v.jobs_ok;
    tasks_ok = Consistent.remove-IsConsistent task_model pk (some c) db.tasks v.tasks_ok;
  }
