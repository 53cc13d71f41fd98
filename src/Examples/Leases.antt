-- ===== src/Examples/Leases.antt =====
-- Runs of the leases of packages/core/src/lib/datastore/db-impl.ts.
use tern_scheduler.Prelude.{true, false, some, none, [], ◌∷◌, ◌≡◌, refl, pos, inr, same}
use tern_scheduler.Model.Value.{start_task, end_task}
use tern_scheduler.Model.Schedule.{ScheduledJob}
use tern_scheduler.Errors.{lease_not_obtained}
use tern_scheduler.Errors.Exec.{ok, err}
use tern_scheduler.Db.MemTable.Lookup.{lookup_rows}
use tern_scheduler.Store.Database.{Database, update_date, empty_database}
use tern_scheduler.Store.Database.Laws.{job_at, IsConsistent}
use tern_scheduler.Store.Jobs.{
  lease_scheduled_job, release_scheduled_job_lease, steal_expired_lease_for_scheduled_job,
  mark_leased_scheduled_job_needs_repair, repair_expired_lease_for_scheduled_job,
}
use tern_scheduler.Store.Jobs.Leases
use tern_scheduler.Store.Jobs.Leases.{
  leased, released, Outcome, lease_answer, lease_row, owner_answer, release_row, mark_row,
  steal_answer, steal_row, lease_scheduled_job-Outcome, release_scheduled_job_lease-Outcome,
  mark_leased_scheduled_job_needs_repair-Outcome, steal_expired_lease_for_scheduled_job-Outcome,
}
use tern_scheduler.Store.Jobs.Repair.{
  RepairOutcome, repair_answer, repair_row, repaired, repair_expired_lease-Outcome,
}
use tern_scheduler.Store.Calls.{leases, releases, adds_job, deletes_job, queues, run}
use tern_scheduler.Store.Calls.Exclusion.{run-keeps_leased}
use tern_scheduler.Store.Calls.LeaseCycle.{lease_excludes, lease_release, repair_before_expiry}
use tern_scheduler.Store.Calls.Consistency.{run-empty-IsConsistent}
use tern_scheduler.Examples.{
  backup_job, backup_task, backup_db, holding, job1_named, backup-IsConsistent,
  holding-IsConsistent,
}

abbrev held_job : ScheduledJob
held_job = leased start_task (some "task1") "node1" (pos 300000) backup_job

abbrev held_db : Database
held_db = holding held_job backup_task

held-IsConsistent : IsConsistent held_db
unfolding same
held-IsConsistent = holding-IsConsistent held_job backup_task refl refl

held_found : job_at "job1" held_db ≡ some held_job
unfolding lookup_rows same
held_found = refl

backup_found : job_at "job1" backup_db ≡ some backup_job
unfolding lookup_rows same
backup_found = refl

run-keeps_leased_example :
    job_at "job1" (
      run held_db (
        leases "job1" end_task none "node2" (pos 7) 300
        ∷ releases "node2" "job1" (some true) none
        ∷ deletes_job held_job
        ∷ queues backup_task (pos 8)
        ∷ []))
    ≡ some held_job
unfolding same
run-keeps_leased_example =
    run-keeps_leased "node1" "job1" held_job held_db
      (leases "job1" end_task none "node2" (pos 7) 300
        ∷ releases "node2" "job1" (some true) none
        ∷ deletes_job held_job
        ∷ queues backup_task (pos 8)
        ∷ [])
      held-IsConsistent held_found refl (job1_named, ((job1_named, refl), (inr refl, (tt, tt))))

run-empty-IsConsistent_example : IsConsistent (
    run empty_database
      (adds_job backup_job "node1" (pos 0) 300 ∷ adds_job backup_job "node2" (pos 1) 300 ∷ []))
run-empty-IsConsistent_example =
    run-empty-IsConsistent
      (adds_job backup_job "node1" (pos 0) 300 ∷ adds_job backup_job "node2" (pos 1) 300 ∷ [])

lease_excludes_example :
    ((lease_scheduled_job "job1" start_task (some "task1") "node1" (pos 0) 300 backup_db).0 ≡ ok tt)
    × ((lease_scheduled_job "job1" end_task none "node2" (pos 9) 300 (
          run
            (lease_scheduled_job "job1" start_task (some "task1") "node1" (pos 0) 300 backup_db).1
            (releases "node2" "job1" (some true) none ∷ []))).0
        ≡ err (
            lease_not_obtained "node2"
              (leased start_task (some "task1") "node1" (update_date (pos 0) (pos 300)) backup_job)
              (some "node1")
              (some (update_date (pos 0) (pos 300)))))
    × ((k : _)
        → job_at k
            (lease_scheduled_job "job1" end_task none "node2" (pos 9) 300 (
              run
                (lease_scheduled_job "job1" start_task
                  (some "task1")
                  "node1"
                  (pos 0)
                  300
                  backup_db).1
                (releases "node2" "job1" (some true) none ∷ []))).1
          ≡ job_at k (
              run
                (lease_scheduled_job "job1" start_task
                  (some "task1")
                  "node1"
                  (pos 0)
                  300
                  backup_db).1
                (releases "node2" "job1" (some true) none ∷ [])))
unfolding same
lease_excludes_example =
    lease_excludes "job1" start_task (some "task1") "node1" (pos 0) 300 backup_db backup_job
      (releases "node2" "job1" (some true) none ∷ []) end_task none "node2" (pos 9) 300 job1_named
      backup-IsConsistent backup_found refl ((job1_named, refl), tt)

lease_release_example :
    ((release_scheduled_job_lease "node1" "job1" (some false) none (
        run
          (lease_scheduled_job "job1" start_task (some "task1") "node1" (pos 0) 300 backup_db).1
          (releases "node2" "job1" (some true) none ∷ []))).0
      ≡ ok tt)
    × (job_at "job1"
          (release_scheduled_job_lease "node1" "job1" (some false) none (
            run
              (lease_scheduled_job "job1" start_task (some "task1") "node1" (pos 0) 300 backup_db).1
              (releases "node2" "job1" (some true) none ∷ []))).1
        ≡ some (released false none backup_job))
unfolding same
lease_release_example =
    lease_release "job1" start_task (some "task1") "node1" (pos 0) 300 backup_db backup_job
      (releases "node2" "job1" (some true) none ∷ []) false none job1_named backup-IsConsistent
      backup_found refl ((job1_named, refl), tt)

repair_before_expiry_example :
    ((repair_expired_lease_for_scheduled_job "job1" "node2" (pos 7) 300 held_db).0
      ≡ ok (some (repaired "node2" (update_date (pos 7) (pos 300)) held_job)))
    × (job_at "job1" (repair_expired_lease_for_scheduled_job "job1" "node2" (pos 7) 300 held_db).1
        ≡ some (repaired "node2" (update_date (pos 7) (pos 300)) held_job))
repair_before_expiry_example =
    repair_before_expiry "job1" "node2" (pos 7) (pos 300000) 300 held_db held_job start_task
      job1_named held-IsConsistent held_found refl refl

lease_scheduled_job-Outcome_example :
    Outcome
      (lease_answer "node1" "job1" (job_at "job1" backup_db))
      (lease_row start_task none "node1" (update_date (pos 0) (pos 300)))
      "job1"
      backup_db
      (lease_scheduled_job "job1" start_task none "node1" (pos 0) 300 backup_db)
lease_scheduled_job-Outcome_example =
    lease_scheduled_job-Outcome "job1" job1_named backup_db backup-IsConsistent start_task none
      "node1" (pos 0) 300

release_scheduled_job_lease-Outcome_example :
    Outcome
      (owner_answer "node1" "node1" "job1" (job_at "job1" held_db))
      (release_row "node1" true none)
      "job1"
      held_db
      (release_scheduled_job_lease "node1" "job1" (some true) none held_db)
release_scheduled_job_lease-Outcome_example =
    release_scheduled_job_lease-Outcome "job1" job1_named held_db held-IsConsistent "node1" true
      none

mark_leased_scheduled_job_needs_repair-Outcome_example :
    Outcome
      (owner_answer "<unknown>" "node1" "job1" (job_at "job1" held_db))
      (Leases.mark_row "node1" (pos 9) false none)
      "job1"
      held_db
      (mark_leased_scheduled_job_needs_repair "job1" "node1" (pos 9) false none held_db)
mark_leased_scheduled_job_needs_repair-Outcome_example =
    mark_leased_scheduled_job_needs_repair-Outcome "job1" job1_named held_db held-IsConsistent
      "node1" (pos 9) false none

steal_expired_lease_for_scheduled_job-Outcome_example :
    Outcome
      (steal_answer "node2" "job1" (pos 9) (job_at "job1" held_db))
      (steal_row "node2" (pos 9) (update_date (pos 9) (pos 300)))
      "job1"
      held_db
      (steal_expired_lease_for_scheduled_job "job1" "node2" (pos 9) 300 held_db)
steal_expired_lease_for_scheduled_job-Outcome_example =
    steal_expired_lease_for_scheduled_job-Outcome "job1" job1_named held_db held-IsConsistent
      "node2" (pos 9) 300

repair_expired_lease-Outcome_example :
    RepairOutcome
      (repair_answer "node2" (pos 9) (update_date (pos 9) (pos 300)) (job_at "job1" held_db))
      (repair_row "node2" (pos 9) (update_date (pos 9) (pos 300)))
      "job1"
      held_db
      (repair_expired_lease_for_scheduled_job "job1" "node2" (pos 9) 300 held_db)
repair_expired_lease-Outcome_example =
    repair_expired_lease-Outcome "job1" job1_named held_db held-IsConsistent "node2" (pos 9) 300
