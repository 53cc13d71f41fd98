-- ===== src/Store/Calls/StartOnce.antt =====
-- The states of a task over a history of calls (packages/core/src/lib/datastore/db-impl.ts): who
-- marks it as queued.
use tern_scheduler.Prelude.{
  String, Bool, true, false, ◌||◌, List, [], ◌∷◌, ◌++◌, ◌≡◌, ◌≢◌, refl, arith, sym, ap, ◌∙◌, Option,
  none, some, inl, inr, All, same, Bool-cases, same_refl,
}
use tern_scheduler.Model.Value.{Date, TaskState, pending, queued, same_task_state}
use tern_scheduler.Model.Task.{Task, TaskChange, set_state, set_execution_queued}
use tern_scheduler.Errors.{invalid_task_state}
use tern_scheduler.Errors.Exec.{ok, err}
use tern_scheduler.Db.MemTable
use tern_scheduler.Db.MemTable.{key_taken, write_all}
use tern_scheduler.Db.MemTable.Lookup.{lookup, lookup_rows-append}
use tern_scheduler.Db.MemTable.Matches.{lookup-remove}
use tern_scheduler.Store.Database.{Database, task_model, create_task, remove_task}
use tern_scheduler.Store.Database.Laws.{task_at, IsConsistent}
use tern_scheduler.Store.Tasks.{
  add_task, mark_task_queued, mark_task_started, mark_task_start_failed, mark_task_completed,
  mark_task_skipped, mark_task_failed, mark_task_state, delete_finished_task, state_in,
  finished_states,
}
use tern_scheduler.Store.Tasks.States.{MarkOutcome, mark_answer, mark_row, mark_task_state-Outcome}
use tern_scheduler.Store.Calls.{
  Call, adds_job, deletes_job, steals, leases, releases, repairs, marks_repair, adds_task, queues,
  starts, start_fails, completes, skips, fails, deletes_task, step, run,
}
use tern_scheduler.Store.Calls.Consistency.{
  step-IsConsistent, run-IsConsistent, is_job_call, job_call-tasks, delete_task-state,
}

-- A call that a scheduler makes about the task of key `k`: row keys are not empty, a failure
-- does not reset a task to `pending`, and the task is not deleted.
abbrev pub Forward : String → Call → Type 0
Forward k (queues task now) = task.pk ≢ ""
Forward k (starts task now id) = task.pk ≢ ""
Forward k (start_fails task now reason) = task.pk ≢ ""
Forward k (completes task now info) = task.pk ≢ ""
Forward k (skips task now) = task.pk ≢ ""
Forward k (fails task now expected state info) =
    (task.pk ≢ "") × (same_task_state state pending ≡ false)
Forward k (deletes_task task) = same task.pk k ≡ false
Forward k _ = Unit

-- The task of key `k` is there, and its state satisfies `p`.
abbrev pub InState : (TaskState → Bool) → String → Database → Type 0
InState p k db = (t : Task) × (task_at k db ≡ some t) × (p t.state ≡ true)

abbrev pub left_pending : TaskState → Bool
left_pending pending = false
left_pending _ = true

write_all-state :
    (extra : List TaskChange) (new : TaskState) (t : Task)
    → (write_all task_model (extra ++ set_state new ∷ []) t).state ≡ new
write_all-state [] new t = refl
write_all-state (c ∷ cs) new t = write_all-state cs new _

mark_row-state :
    (p : TaskState → Bool) (expected new : TaskState) (extra : List TaskChange) (t : Task)
    → p new ≡ true
    → p t.state ≡ true
    → p (mark_row expected new extra t).state ≡ true
mark_row-state p expected new extra t pn pt = elim (Bool-cases (same_task_state t.state expected)) [
  | inl e ↦ rw (e, write_all-state extra new t) pn
  | inr e ↦ rw e pt
]

module _ (k : String) (db : Database) (v : IsConsistent db) (h : InState left_pending k db) where
  mark_keeps :
      (pk : String) (expected new : TaskState) (extra : List TaskChange)
      → pk ≢ ""
      → left_pending new ≡ true
      → InState left_pending k (mark_task_state pk expected new extra db).1
  mark_keeps pk expected new extra named pn = elim (Bool-cases (same pk k)) [
    | inl e ↦ (
      mark_row expected new extra h.0,
      (mark_task_state-Outcome pk named db v expected new extra).rows k ∙ rw (e, h.1),
      mark_row-state left_pending expected new extra h.0 pn h.2,
    )
    | inr e ↦
        (h.0, (mark_task_state-Outcome pk named db v expected new extra).rows k ∙ rw e h.1, h.2)
  ]

  create_keeps : (row : Task) → task_at k (create_task row db).1 ≡ some h.0
  unfolding create_task MemTable.create
  create_keeps row = elim (Bool-cases (same row.pk "" || key_taken row.pk db.tasks.pks)) [
    | inl e ↦ rw e h.1
    | inr e ↦ rw e (lookup_rows-append task_model k row db.tasks.rows ∙ rw h.1)
  ]

  delete_keeps :
      (task : Task) → same task.pk k ≡ false → task_at k (delete_finished_task task db).1 ≡ some h.0
  unfolding remove_task
  delete_keeps task n =
      ap (task_at k) (delete_task-state task db)
      ∙ lookup-remove task_model task.pk k (some (state_in finished_states)) db.tasks v.tasks_ok
      ∙ ground (arith, h.1)

  job_keeps : (c : Call) → is_job_call c ≡ true → InState left_pending k (step db c)
  job_keeps c e = (h.0, ap (lookup task_model k) (job_call-tasks db c e) ∙ h.1, h.2)

  pub step-left_pending : (c : Call) → Forward k c → InState left_pending k (step db c)
  unfolding step add_task mark_task_queued mark_task_started mark_task_start_failed
      mark_task_completed mark_task_skipped mark_task_failed
  step-left_pending (adds_task task) n = (h.0, create_keeps task, h.2)
  step-left_pending (queues task now) n = mark_keeps _ _ _ _ n refl
  step-left_pending (starts task now id) n = mark_keeps _ _ _ _ n refl
  step-left_pending (start_fails task now reason) n = mark_keeps _ _ _ _ n refl
  step-left_pending (completes task now info) n = mark_keeps _ _ _ _ n refl
  step-left_pending (skips task now) n = mark_keeps _ _ _ _ n refl
  step-left_pending (fails task now expected state info) n =
      mark_keeps _ _ _ _ n.0 (ground (arith, n.1))
  step-left_pending (deletes_task task) n = (h.0, delete_keeps task n, h.2)
  step-left_pending (adds_job model id now secs) n = job_keeps (adds_job model id now secs) refl
  step-left_pending (deletes_job job) n = job_keeps (deletes_job job) refl
  step-left_pending (steals pk id now secs) n = job_keeps (steals pk id now secs) refl
  step-left_pending (leases pk op task id now secs) n =
      job_keeps (leases pk op task id now secs) refl
  step-left_pending (releases id pk pasture reason) n =
      job_keeps (releases id pk pasture reason) refl
  step-left_pending (repairs pk id now secs src) n = job_keeps (repairs pk id now secs src) refl
  step-left_pending (marks_repair pk id now pasture reason) n =
      job_keeps (marks_repair pk id now pasture reason) refl

run-left_pending :
    (k : String) (db : Database) (cs : List Call)
    → IsConsistent db
    → All (Forward k) cs
    → InState left_pending k db
    → InState left_pending k (run db cs)
unfolding run
run-left_pending k db [] v n h = h
run-left_pending k db (c ∷ cs) v n h =
    run-left_pending k (step db c) cs (step-IsConsistent db c v) n.1
      (step-left_pending k db v h c n.0)

queue-left_pending :
    (task : Task) (now : Date) (db : Database)
    → task.pk ≢ ""
    → IsConsistent db
    → (mark_task_queued task now db).0 ≡ ok tt
    → InState left_pending task.pk (mark_task_queued task now db).1
unfolding mark_task_queued
queue-left_pending task now db named v granted =
    by_row (task_at task.pk db) refl (sym out.answers ∙ granted)
  where
    out :
        MarkOutcome
          (mark_answer task.pk pending queued (task_at task.pk db))
          (mark_row pending queued (set_execution_queued (some now) ∷ []))
          task.pk
          db
          (mark_task_state task.pk pending queued (set_execution_queued (some now) ∷ []) db)
    out = mark_task_state-Outcome task.pk named db v pending queued _

    by_row :
        (o : Option Task)
        → task_at task.pk db ≡ o
        → mark_answer task.pk pending queued o ≡ ok tt
        → InState left_pending task.pk
            (mark_task_state task.pk pending queued (set_execution_queued (some now) ∷ []) db).1
    by_row none e h = absurd (cc)
    by_row (some t) e h = (
      mark_row pending queued (set_execution_queued (some now) ∷ []) t,
      out.rows task.pk ∙ rw (same_refl task.pk, e),
      ground arith,
    )

not_pending : (s : TaskState) → left_pending s ≡ true → same_task_state s pending ≡ false
not_pending s h = ground arith

queue-IsConsistent :
    (task : Task) (now : Date) (db : Database)
    → IsConsistent db
    → IsConsistent (mark_task_queued task now db).1
queue-IsConsistent task now db v = unfold step in step-IsConsistent db (queues task now) v

queue_refused :
    (task : Task) (now : Date) (db : Database) (h : InState left_pending task.pk db)
    → task.pk ≢ ""
    → IsConsistent db
    → (mark_task_queued task now db).0 ≡ err (invalid_task_state h.0 queued pending)
unfolding mark_task_queued
queue_refused task now db h named v =
    (mark_task_state-Outcome task.pk named db v pending queued _).answers
    ∙ rw (h.1, not_pending h.0.state h.2)

-- Once a node has marked a task as queued, in a consistent store, every later attempt to mark it
-- as queued is refused with an invalid-state error, after whatever calls by whatever nodes, as
-- long as these do not delete the task's row and no failure resets a task to `pending`; row keys
-- are not empty.
pub queued_once :
    (task later : Task) (now then_now : Date) (db : Database) (cs : List Call)
    → task.pk ≢ ""
    → later.pk ≡ task.pk
    → IsConsistent db
    → (mark_task_queued task now db).0 ≡ ok tt
    → All (Forward task.pk) cs
    → (t : Task) × ((mark_task_queued later then_now (run (mark_task_queued task now db).1 cs)).0
        ≡ err (invalid_task_state t queued pending))
queued_once task later now then_now db cs named e v granted n =
    let after = (mark_task_queued task now db).1 in
    let w = queue-IsConsistent task now db v in
    let left : InState left_pending later.pk (run after cs) =
      rw e
        (run-left_pending task.pk after cs w n (queue-left_pending task now db named v granted)) in
    (
      left.0,
      queue_refused later then_now (run after cs) left (rw e named) (run-IsConsistent after cs w),
    )
