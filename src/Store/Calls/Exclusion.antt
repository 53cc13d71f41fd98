-- ===== src/Store/Calls/Exclusion.antt =====
-- The lease as a lock that nodes share (packages/core/src/lib/datastore/db-impl.ts over memory.ts):
-- a leased row under calls of other nodes.
use tern_scheduler.Prelude.{
  ℕ, String, Bool, true, false, List, [], ◌∷◌, ◌≡◌, ◌≢◌, refl, arith, ◌∙◌, Option, none, some, ◌⊎◌,
  inl, inr, All, same, Bool-cases, eq_of_same, ◌||◌, ap,
}
use tern_scheduler.Model.Value.{Date, ScheduleState, TaskState, flag}
use tern_scheduler.Model.Schedule.{ScheduledJob, JobColumn, JobChange, pasture_column}
use tern_scheduler.Model.Task.{Task, TaskChange}
use tern_scheduler.Db.Conditional.{Conditional, equals, matches_record}
use tern_scheduler.Db.MemTable
use tern_scheduler.Db.MemTable.{key_taken, passes}
use tern_scheduler.Db.MemTable.Lookup.{lookup_rows-append}
use tern_scheduler.Db.MemTable.Matches.{lookup-remove}
use tern_scheduler.Store.Database.{
  Database, job_model, update_job, create_job, remove_job, update_task, create_task, remove_task,
}
use tern_scheduler.Store.Database.Laws.{job_at, IsConsistent, job_at-update_job}
use tern_scheduler.Store.Jobs.{
  add_scheduled_job_model, delete_scheduled_job, release_scheduled_job_lease, take_expired_lease,
  lease_is_ours, lease_is_over,
}
use tern_scheduler.Store.Jobs.Leases.{
  holds, owned_by, may_take_over, AtKey, lease_row, mark_row, lease_scheduled_job-Outcome,
  mark_leased_scheduled_job_needs_repair-Outcome, steal_expired_lease_for_scheduled_job-Outcome,
}
use tern_scheduler.Store.Jobs.Repair.{over_eq}
use tern_scheduler.Store.Tasks.{
  add_task, mark_task_queued, mark_task_started, mark_task_start_failed, mark_task_completed,
  mark_task_skipped, mark_task_failed, mark_task_state, delete_finished_task,
}
use tern_scheduler.Store.Calls.{
  Call, adds_job, deletes_job, steals, leases, releases, repairs, marks_repair, adds_task, queues,
  starts, start_fails, completes, skips, fails, deletes_task, step, run,
}
use tern_scheduler.Store.Calls.Consistency.{
  step-IsConsistent, guarded-state, take-state, mark_task_state-state, delete_task-state,
  delete_job-state,
}

-- A call by a node other than the owner `a` of the row `j` of key `pk`, restricted as follows. A
-- release and a mark for repair are not in `a`'s name. A steal and a repair of the row come only at
-- a time at which memory.ts does not let the lease be taken over; since its test of the expiry is
-- reversed, that is any time from the end of the lease on. A deletion of the row's key comes only
-- if the row is not out to pasture. Keys are not empty. Nothing else is restricted.
abbrev pub ByOther : String → String → ScheduledJob → Call → Type 0
ByOther a pk j (adds_job model id now secs) = Unit
ByOther a pk j (deletes_job job) = (same job.pk pk ≡ false) ⊎ (j.pasture ≡ false)
ByOther a pk j (steals k id now secs) =
    (k ≢ "") × ((same k pk ≡ false) ⊎ (may_take_over now j ≡ false))
ByOther a pk j (leases k op task id now secs) = k ≢ ""
ByOther a pk j (releases id k pasture reason) = (k ≢ "") × (same a id ≡ false)
ByOther a pk j (repairs k id now secs src) =
    (k ≢ "") × ((same k pk ≡ false) ⊎ (may_take_over now j ≡ false))
ByOther a pk j (marks_repair k id now pasture reason) = (k ≢ "") × (same a id ≡ false)
ByOther a pk j _ = Unit

unmoved :
    (f : ScheduledJob → ScheduledJob) (k pk : String) (db after : Database) (j : ScheduledJob)
    → AtKey f k db after
    → job_at pk db ≡ some j
    → (same k pk ≡ false) ⊎ (f j ≡ j)
    → job_at pk after ≡ some j
unmoved f k pk db after j h e (inl n) = h pk ∙ rw (n, e)
unmoved f k pk db after j h e (inr n) = h pk ∙ rw e (ground (arith, n))

other_owner :
    (a id : String) (s : Option ScheduleState) (o : Option String)
    → holds a s o ≡ true
    → same a id ≡ false
    → holds id s o ≡ false
other_owner a id none o h n = refl
other_owner a id (some s) none h n = refl
other_owner a id (some s) (some owner) h n = ground (arith, eq_of_same owner a)

ours_eq :
    (id : String) (j : ScheduledJob) → passes job_model (some (lease_is_ours id)) j ≡ owned_by id j
unfolding matches_record
ours_eq id j = ground arith

mark_task_state-jobs :
    (pk : String) (expected new : TaskState) (extra : List TaskChange) (db : Database)
    → (mark_task_state pk expected new extra db).1.jobs ≡ db.jobs
unfolding update_task
mark_task_state-jobs pk expected new extra db =
    ap (λ (d : Database). d.jobs) (mark_task_state-state pk expected new extra db)

delete_task-jobs : (task : Task) (db : Database) → (delete_finished_task task db).1.jobs ≡ db.jobs
unfolding remove_task
delete_task-jobs task db = ap (λ (d : Database). d.jobs) (delete_task-state task db)

module _ (a pk : String) (j : ScheduledJob) (db : Database) (v : IsConsistent db)
    (found : job_at pk db ≡ some j) (held : owned_by a j ≡ true) where
  lease_keeps :
      (op : ScheduleState) (task : Option String) (id : String) (expires : Date)
      → lease_row op task id expires j ≡ j
  lease_keeps op task id expires = ground arith

  update_keeps :
      (k : String) (changes : List JobChange) (c : Conditional JobColumn)
      → k ≢ ""
      → (same k pk ≡ false) ⊎ (passes job_model (some c) j ≡ false)
      → job_at pk (update_job k changes c db).1 ≡ some j
  update_keeps k changes c named n =
      job_at-update_job k named changes c db pk ∙ rw found (ground (arith, n))

  release_keeps :
      (k id : String) (pasture : Option Bool) (reason : Option String)
      → k ≢ ""
      → same a id ≡ false
      → job_at pk (release_scheduled_job_lease id k pasture reason db).1 ≡ some j
  unfolding release_scheduled_job_lease
  release_keeps k id pasture reason named n =
      ap (job_at pk) (guarded-state k _ (lease_is_ours id) _ db)
      ∙ update_keeps k _ (lease_is_ours id) named
          (inr (ours_eq id j ∙ other_owner a id j.update_state j.lease_owner held n))

  take_keeps :
      (k id : String) (now : Date) (secs : ℕ) (src : ScheduledJob)
      → k ≢ ""
      → (same k pk ≡ false) ⊎ (may_take_over now j ≡ false)
      → job_at pk (take_expired_lease k id now secs src db).1 ≡ some j
  take_keeps k id now secs src named n =
      ap (job_at pk) (take-state k id now secs src db)
      ∙ update_keeps k _ (lease_is_over now) named (ground (arith, over_eq now j, n))

  mark_keeps :
      (id : String) (now : Date) (pasture : Bool) (reason : Option String)
      → same a id ≡ false
      → mark_row id now pasture reason j ≡ j
  mark_keeps id now pasture reason n = rw (other_owner a id j.update_state j.lease_owner held n)

  create_keeps : (row : ScheduledJob) → job_at pk (create_job row db).1 ≡ some j
  unfolding create_job MemTable.create
  create_keeps row = elim (Bool-cases (same row.pk "" || key_taken row.pk db.jobs.pks)) [
    | inl e ↦ rw e found
    | inr e ↦ rw e (lookup_rows-append job_model pk row db.jobs.rows ∙ rw found)
  ]

  delete_keeps :
      (job : ScheduledJob)
      → (same job.pk pk ≡ false) ⊎ (j.pasture ≡ false)
      → job_at pk (delete_scheduled_job job db).1 ≡ some j
  unfolding remove_job matches_record
  delete_keeps job n =
      ap (job_at pk) (delete_job-state job db)
      ∙ lookup-remove job_model job.pk pk (some (equals pasture_column (flag true))) db.jobs
          v.jobs_ok
      ∙ ground (arith, eq_of_same job.pk pk, n)

  -- No call of another node changes the row in any column.
  pub step-keeps : (c : Call) → ByOther a pk j c → job_at pk (step db c) ≡ some j
  unfolding step add_scheduled_job_model add_task create_task mark_task_queued mark_task_started
      mark_task_start_failed mark_task_completed mark_task_skipped mark_task_failed
  step-keeps (adds_job model id now secs) n = create_keeps _
  step-keeps (deletes_job job) n = delete_keeps job n
  step-keeps (steals k id now secs) n =
      unmoved _ k pk db (step db (steals k id now secs)) j
        (steal_expired_lease_for_scheduled_job-Outcome k n.0 db v id now secs).rows found
        (ground (arith, n.1))
  step-keeps (leases k op task id now secs) n =
      unmoved _ k pk db (step db (leases k op task id now secs)) j
        (lease_scheduled_job-Outcome k n db v op task id now secs).rows found
        (inr (lease_keeps op task id _))
  step-keeps (releases id k pasture reason) n = release_keeps k id pasture reason n.0 n.1
  step-keeps (repairs k id now secs src) n = take_keeps k id now secs src n.0 n.1
  step-keeps (marks_repair k id now pasture reason) n =
      unmoved _ k pk db (step db (marks_repair k id now pasture reason)) j
        (mark_leased_scheduled_job_needs_repair-Outcome k n.0 db v id now pasture reason).rows found
        (inr (mark_keeps id now pasture reason n.1))
  step-keeps (adds_task task) n = found
  step-keeps (queues task now) n = rw (mark_task_state-jobs task.pk _ _ _ db) found
  step-keeps (starts task now id) n = rw (mark_task_state-jobs task.pk _ _ _ db) found
  step-keeps (start_fails task now reason) n = rw (mark_task_state-jobs task.pk _ _ _ db) found
  step-keeps (completes task now info) n = rw (mark_task_state-jobs task.pk _ _ _ db) found
  step-keeps (skips task now) n = rw (mark_task_state-jobs task.pk _ _ _ db) found
  step-keeps (fails task now expected state info) n =
      rw (mark_task_state-jobs task.pk _ _ _ db) found
  step-keeps (deletes_task task) n = rw (delete_task-jobs task db) found

-- While a node holds the lease of a scheduled job, in a consistent store, the job's row stays as
-- it is in every column after any sequence of calls by other nodes, which restrict themselves as
-- `ByOther` says: they release nothing and mark nothing for repair in the holder's name, they
-- steal or repair the row only at times at which memory.ts refuses it (with its reversed test,
-- those from the end of the lease on), they delete the row only if it is not out to pasture, and
-- their keys are not empty. A repair at a time before the end of the lease is excluded, since
-- memory.ts grants it and it takes the lease away.
pub run-keeps_leased :
    (a pk : String) (j : ScheduledJob) (db : Database) (cs : List Call)
    → IsConsistent db
    → job_at pk db ≡ some j
    → owned_by a j ≡ true
    → All (ByOther a pk j) cs
    → job_at pk (run db cs) ≡ some j
unfolding run
run-keeps_leased a pk j db [] v found held n = found
run-keeps_leased a pk j db (c ∷ cs) v found held n =
    run-keeps_leased a pk j (step db c) cs (step-IsConsistent db c v)
      (step-keeps a pk j db v found held c n.0) held n.1
