-- ===== src/Examples/Tables.antt =====
-- Runs of the tables of packages/core/src/lib/datastore/memory.ts, and of the queries over them.
use tern_scheduler.Prelude.{
  true, List, some, [], ◌∷◌, ◌≡◌, ◌≤◌, take, drop, length, pos, ltb_ℤ, All, arith,
}
use tern_scheduler.Model.Value.{pending}
use tern_scheduler.Model.Schedule.{ScheduledJob}
use tern_scheduler.Model.Task.{Task}
use tern_scheduler.Errors.Exec.{ok}
use tern_scheduler.Db.Conditional.{matches_record}
use tern_scheduler.Store.Database.{Database}
use tern_scheduler.Store.Pages.{Page, num, get_active_scheduled_jobs}
use tern_scheduler.Store.Pages.Overlap.{active_jobs, active_pages_overlap}
use tern_scheduler.Store.Polling.{poll_executable_tasks_later}
use tern_scheduler.Store.Tasks.{poll_executable_tasks}
use tern_scheduler.Examples.{backup_job, backup_db}

poll_executable_tasks_later_example :
    (found : List Task) × (poll_executable_tasks (pos 7) 10 backup_db ≡ (ok found, backup_db))
    × (length found ≤ 10)
    × All (λ t. (ltb_ℤ (pos 7) t.execute_at ≡ true) × (t.state ≡ pending)) found
poll_executable_tasks_later_example = poll_executable_tasks_later backup_db (pos 7) 10

-- A store with a second scheduled job.
abbrev two_jobs : Database
two_jobs = record backup_db {
  jobs = record {
    rows = backup_job ∷ record backup_job { pk = "job2" } ∷ [];
    pks = "job1" ∷ "job2" ∷ [];
  };
}

active_pages_overlap_example :
    (p : Page ScheduledJob) × (get_active_scheduled_jobs (some (num 0)) 1 two_jobs
      ≡ (ok p, two_jobs))
    × (p.page_size ≡ 1)
    × (p.next_page_key ≡ some (num 1))
    × (length p.page ≡ 2)
    × (drop 1 p.page ≡ take 1 (drop 1 (active_jobs two_jobs)))
unfolding matches_record
active_pages_overlap_example = active_pages_overlap two_jobs 0 1 (omega arith)
