-- ===== src/Examples.antt =====
-- A scheduled job with its task, a store that holds them and a configuration, for the runs of
-- packages/core/src/lib in the modules below.
pub mod Leases
pub mod Tables
pub mod Tasks
pub mod Operations
pub mod Endings
pub mod Repairs
pub mod Refusals
pub mod Cron
pub mod Expressions
pub mod CronRuns
pub mod Timers
pub mod SqlRows
pub mod Polls
use tern_scheduler.Prelude.{
  ℕ, String, Bool, true, false, Option, none, some, List, [], ◌∷◌, ◌≡◌, ◌≢◌, refl, pos, same,
  ne_of_same, contains,
}
use tern_scheduler.Model.Value.{Date, pending, queued}
use tern_scheduler.Model.Schedule.{ScheduledJob}
use tern_scheduler.Model.Task.{Task}
use tern_scheduler.Errors.{Error}
use tern_scheduler.Errors.Exec.{ok}
use tern_scheduler.Store.Database.{Database}
use tern_scheduler.Store.Database.Laws.{job_at, task_at, IsConsistent}
use tern_scheduler.Strategies.{TaskCreationStrategy, after_new, always_run, no_retry}
use tern_scheduler.Controller.World.{World, Env, JobExecutionState}

abbrev pub backup_job : ScheduledJob
backup_job = record {
  pk = "job1";
  update_state = none;
  update_task_pk = none;
  pasture = false;
  pasture_reason = none;
  display_name = "backup";
  description = "";
  created_on = pos 0;
  duplicate_strategy = "run";
  retry_strategy = "none";
  job_name = "backup";
  job_context = "";
  task_creation_strategy = "once";
  schedule_definition = "";
  previous_schedule = none;
  previous_reason = none;
  repair_state = none;
  lease_owner = none;
  lease_expires = none;
}

abbrev pub backup_task : Task
backup_task = record {
  pk = "task1";
  schedule = "job1";
  state = pending;
  created_on = pos 0;
  execute_at = pos 5000;
  execution_job_id = none;
  execution_queued = none;
  execution_started = none;
  execution_finished = none;
  next_timeout_check = none;
  retry_index = 0;
  completed_info = none;
}

abbrev pub holding : ScheduledJob → Task → Database
holding j t = record {
  jobs = record { rows = j ∷ []; pks = j.pk ∷ [] };
  tasks = record { rows = t ∷ []; pks = t.pk ∷ [] };
}

abbrev pub backup_db : Database
backup_db = holding backup_job backup_task

pub job1_named : ◌≢◌ {A = String} "job1" ""
unfolding same
job1_named = ne_of_same "job1" "" refl

pub task1_named : ◌≢◌ {A = String} "task1" ""
unfolding same
task1_named = ne_of_same "task1" "" refl

pub holding-IsConsistent :
    (j : ScheduledJob) (t : Task)
    → same j.pk "" ≡ false
    → same t.pk "" ≡ false
    → IsConsistent (holding j t)
unfolding contains
holding-IsConsistent j t hj ht = record {
  jobs_ok = record { listed = refl; distinct = (refl, hj, tt) };
  tasks_ok = record { listed = refl; distinct = (refl, ht, tt) };
}

pub backup-IsConsistent : IsConsistent backup_db
unfolding same
backup-IsConsistent = holding-IsConsistent backup_job backup_task refl refl

-- The framework answers each start with `status`, and leaves the world as it is.
abbrev pub env_answering : JobExecutionState → Env
env_answering status = record {
  create_primary_key = λ n. "key";
  lease_owner = λ n. "node1";
  current_time = λ n. pos n;
  lease_time_seconds = 300;
  retry_seconds_delay = 1 ∷ 1 ∷ 10 ∷ [];
  wait = λ n w. w;
  start_job = λ task_pk name context w. (ok status, w);
  error_text = λ e. "error";
  retry_registry = ("none", no_retry) ∷ [];
  task_creation_registry = ("once", after_new (λ now sched. ok now)) ∷ [];
  duplicate_task_registry = ("run", always_run) ∷ [];
}

abbrev pub world_of : Database → World
world_of db = record { db = db; events = []; clock_reads = 0; keys_made = 0; leases_made = 0 }
