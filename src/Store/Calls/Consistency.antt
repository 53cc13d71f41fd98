-- ===== src/Store/Calls/Consistency.antt =====
-- The consistency of both tables of packages/core/src/lib/datastore/memory.ts over a history of calls
-- of db-impl.ts.
use tern_scheduler.Prelude.{
  ℕ, String, List, [], ◌∷◌, ◌≡◌, refl, arith, subst, sym, ap, Option, none, some, inl, inr, ltb,
  if◌then◌else◌, true, false, ◌++◌, Bool, Bool-cases, pos,
}
use tern_scheduler.Model.Value.{Date, TaskState, flag}
use tern_scheduler.Model.Schedule.{ScheduledJob, JobChange, JobColumn, pasture_column}
use tern_scheduler.Model.Task.{Task, TaskChange, set_state}
use tern_scheduler.Errors.{Error}
use tern_scheduler.Errors.Exec.{pure, ◌>>=◌}
use tern_scheduler.Db.Conditional.{Conditional, equals}
use tern_scheduler.Db.MemTable
use tern_scheduler.Store.Database.{
  Database, job_model, job_pk_equals, empty_database, update_job, create_job, remove_job,
  update_task, remove_task, find_jobs, find_tasks, task_pk_equals, update_date,
}
use tern_scheduler.Store.Database.Laws.{
  IsConsistent, empty_database-IsConsistent, update_job-IsConsistent, create_job-IsConsistent,
  remove_job-IsConsistent, update_task-IsConsistent, create_task-IsConsistent,
  remove_task-IsConsistent,
}
use tern_scheduler.Store.Jobs.{
  add_scheduled_job_model, delete_scheduled_job, steal_expired_lease_for_scheduled_job,
  lease_scheduled_job, release_scheduled_job_lease, mark_leased_scheduled_job_needs_repair, deny,
  unless_changed, take_expired_lease, first_row, repaired_row, repair_changes, lease_is_over,
}
use tern_scheduler.Store.Jobs.Guarded.{deny_lem}
use tern_scheduler.Store.Tasks.{
  add_task, mark_task_state, mark_task_queued, mark_task_started, mark_task_start_failed,
  mark_task_completed, mark_task_skipped, mark_task_failed, delete_finished_task, deny_found,
  state_is, state_in, finished_states,
}
use tern_scheduler.Store.Calls.{
  Call, adds_job, deletes_job, steals, leases, releases, repairs, marks_repair, adds_task, queues,
  starts, start_fails, completes, skips, fails, deletes_task, step, run,
}

-- A denial writes nothing.
unless_changed-state :
    (n : ℕ) (pk : String) (denied : ScheduledJob → Error) (db : Database)
    → (unless_changed n (deny pk denied) db).1 ≡ db
unless_changed-state n pk denied db = ground (arith, deny_lem pk denied db)

pub guarded-state :
    (pk : String) (cs : List JobChange) (c : Conditional JobColumn) (denied : ScheduledJob → Error)
    (db : Database)
    → ((update_job pk cs c >>= λ count. unless_changed count (deny pk denied)) db).1
      ≡ (update_job pk cs c db).1
unfolding update_job
guarded-state pk cs c denied db = unless_changed-state _ pk denied _

deny_found-state :
    (pk : String) (expected new : TaskState) (o : Option Task) (db : Database)
    → (deny_found pk expected new o db).1 ≡ db
deny_found-state pk expected new none db = refl
deny_found-state pk expected new (some t) db = refl

mark_denial-state :
    (pk : String) (expected new : TaskState) (n : ℕ) (db : Database)
    → ((if ltb 0 n then pure tt else do
      tasks ← find_tasks 0 1 (task_pk_equals pk)
      deny_found pk expected new (first_row tasks))
        db).1
      ≡ db
unfolding find_tasks
mark_denial-state pk expected new n db = elim (Bool-cases (ltb 0 n)) [
  | inl e ↦ rw e
  | inr e ↦ rw e (deny_found-state pk expected new _ db)
]

pub mark_task_state-state :
    (pk : String) (expected new : TaskState) (extra : List TaskChange) (db : Database)
    → (mark_task_state pk expected new extra db).1
      ≡ (update_task pk (extra ++ set_state new ∷ []) (state_is expected) db).1
unfolding mark_task_state update_task
mark_task_state-state pk expected new extra db = mark_denial-state pk expected new _ _

repaired_row-state :
    (pk : String) (n : ℕ) (o : Option ScheduledJob) (db : Database)
    → (repaired_row pk n o db).1 ≡ db
repaired_row-state pk n none db = refl
repaired_row-state pk n (some j) db = ground arith

pub take-state :
    (pk id : String) (now : Date) (secs : ℕ) (src : ScheduledJob) (db : Database)
    → (take_expired_lease pk id now secs src db).1
      ≡ (update_job pk
          (repair_changes id (update_date now (pos secs)) src)
          (lease_is_over now)
          db).1
unfolding take_expired_lease update_job find_jobs
take-state pk id now secs src db =
    let changes = repair_changes id (update_date now (pos secs)) src in
    let after = update_job pk changes (lease_is_over now) db in
    repaired_row-state pk
      (MemTable.conditional_update job_model pk changes (some (lease_is_over now)) db.jobs).0
      (first_row (MemTable.find job_model 0 1 (some (job_pk_equals pk)) after.1.jobs)) after.1

module _ (db : Database) (v : IsConsistent db) where
  guarded-IsConsistent :
      (pk : String) (cs : List JobChange) (c : Conditional JobColumn)
      (denied : ScheduledJob → Error)
      → IsConsistent ((update_job pk cs c >>= λ count. unless_changed count (deny pk denied)) db).1
  guarded-IsConsistent pk cs c denied =
      subst IsConsistent (sym (guarded-state pk cs c denied db))
        (update_job-IsConsistent db v pk cs c)

  marked-IsConsistent :
      (pk : String) (expected new : TaskState) (extra : List TaskChange)
      → IsConsistent (mark_task_state pk expected new extra db).1
  marked-IsConsistent pk expected new extra =
      subst IsConsistent (sym (mark_task_state-state pk expected new extra db))
        (update_task-IsConsistent db v pk _ _)

  take-IsConsistent :
      (pk id : String) (now : Date) (secs : ℕ) (src : ScheduledJob)
      → IsConsistent (take_expired_lease pk id now secs src db).1
  take-IsConsistent pk id now secs src =
      subst IsConsistent (sym (take-state pk id now secs src db))
        (update_job-IsConsistent db v pk _ _)

pub delete_job-state :
    (job : ScheduledJob) (db : Database)
    → (delete_scheduled_job job db).1 ≡ (remove_job job.pk (equals pasture_column (flag true)) db).1
unfolding delete_scheduled_job remove_job
delete_job-state job db = refl

pub delete_task-state :
    (task : Task) (db : Database)
    → (delete_finished_task task db).1 ≡ (remove_task task.pk (state_in finished_states) db).1
unfolding delete_finished_task remove_task
delete_task-state task db = refl

-- Each call, with whatever arguments and whether it is granted or denied, keeps the key lists of
-- both tables equal to the keys of their rows, without repetition and without the empty key.
pub step-IsConsistent : (db : Database) (c : Call) → IsConsistent db → IsConsistent (step db c)
unfolding step add_scheduled_job_model steal_expired_lease_for_scheduled_job lease_scheduled_job
    release_scheduled_job_lease mark_leased_scheduled_job_needs_repair add_task mark_task_queued
    mark_task_started mark_task_start_failed mark_task_completed mark_task_skipped mark_task_failed
step-IsConsistent db (adds_job model id now secs) v = create_job-IsConsistent db v _
step-IsConsistent db (deletes_job job) v =
    subst IsConsistent (sym (delete_job-state job db)) (remove_job-IsConsistent db v _ _)
step-IsConsistent db (steals pk id now secs) v = guarded-IsConsistent db v pk _ _ _
step-IsConsistent db (leases pk op task id now secs) v = guarded-IsConsistent db v pk _ _ _
step-IsConsistent db (releases id pk pasture reason) v = guarded-IsConsistent db v pk _ _ _
step-IsConsistent db (repairs pk id now secs src) v = take-IsConsistent db v pk id now secs src
step-IsConsistent db (marks_repair pk id now pasture reason) v = guarded-IsConsistent db v pk _ _ _
step-IsConsistent db (adds_task task) v = create_task-IsConsistent db v _
step-IsConsistent db (queues task now) v = marked-IsConsistent db v _ _ _ _
step-IsConsistent db (starts task now id) v = marked-IsConsistent db v _ _ _ _
step-IsConsistent db (start_fails task now reason) v = marked-IsConsistent db v _ _ _ _
step-IsConsistent db (completes task now info) v = marked-IsConsistent db v _ _ _ _
step-IsConsistent db (skips task now) v = marked-IsConsistent db v _ _ _ _
step-IsConsistent db (fails task now expected state info) v = marked-IsConsistent db v _ _ _ _
step-IsConsistent db (deletes_task task) v =
    subst IsConsistent (sym (delete_task-state task db)) (remove_task-IsConsistent db v _ _)

pub run-IsConsistent : (db : Database) (cs : List Call) → IsConsistent db → IsConsistent (run db cs)
unfolding run
run-IsConsistent db [] v = v
run-IsConsistent db (c ∷ cs) v = run-IsConsistent (step db c) cs (step-IsConsistent db c v)

-- From the empty store, after any history of calls by any nodes, both tables are consistent: the
-- recorded keys are exactly those of the rows, no key stands twice, and none is empty.
pub run-empty-IsConsistent : (cs : List Call) → IsConsistent (run empty_database cs)
run-empty-IsConsistent cs = run-IsConsistent empty_database cs empty_database-IsConsistent

-- Calls on scheduled jobs.
abbrev pub is_job_call : Call → Bool
is_job_call (adds_job model id now secs) = true
is_job_call (deletes_job job) = true
is_job_call (steals pk id now secs) = true
is_job_call (leases pk op task id now secs) = true
is_job_call (releases id pk pasture reason) = true
is_job_call (repairs pk id now secs src) = true
is_job_call (marks_repair pk id now pasture reason) = true
is_job_call _ = false

guarded-tasks :
    (pk : String) (cs : List JobChange) (c : Conditional JobColumn) (denied : ScheduledJob → Error)
    (db : Database)
    → ((update_job pk cs c >>= λ count. unless_changed count (deny pk denied)) db).1.tasks
      ≡ db.tasks
unfolding update_job
guarded-tasks pk cs c denied db = ap (λ (d : Database). d.tasks) (guarded-state pk cs c denied db)

take-tasks :
    (pk id : String) (now : Date) (secs : ℕ) (src : ScheduledJob) (db : Database)
    → (take_expired_lease pk id now secs src db).1.tasks ≡ db.tasks
unfolding update_job
take-tasks pk id now secs src db = ap (λ (d : Database). d.tasks) (take-state pk id now secs src db)

-- Calls on scheduled jobs leave the tasks alone.
pub job_call-tasks :
    (db : Database) (c : Call) → is_job_call c ≡ true → (step db c).tasks ≡ db.tasks
unfolding step add_scheduled_job_model create_job remove_job steal_expired_lease_for_scheduled_job
    lease_scheduled_job release_scheduled_job_lease mark_leased_scheduled_job_needs_repair
job_call-tasks db (adds_job model id now secs) h = refl
job_call-tasks db (deletes_job job) h = ap (λ (d : Database). d.tasks) (delete_job-state job db)
job_call-tasks db (steals pk id now secs) h = guarded-tasks pk _ _ _ db
job_call-tasks db (leases pk op task id now secs) h = guarded-tasks pk _ _ _ db
job_call-tasks db (releases id pk pasture reason) h = guarded-tasks pk _ _ _ db
job_call-tasks db (repairs pk id now secs src) h = take-tasks pk id now secs src db
job_call-tasks db (marks_repair pk id now pasture reason) h = guarded-tasks pk _ _ _ db
job_call-tasks db _ h = cc
