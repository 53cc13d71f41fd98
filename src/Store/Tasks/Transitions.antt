-- ===== src/Store/Tasks/Transitions.antt =====
-- markTaskState of packages/core/src/lib/datastore/db-impl.ts on a row that is there: when it is in
-- the state that the call expects, and when it is in another.
use tern_scheduler.Prelude.{
  String, true, false, some, List, [], ◌∷◌, ◌++◌, ◌≡◌, ◌≢◌, same_refl, ◌∙◌, ap,
}
use tern_scheduler.Model.Value.{TaskState, same_task_state}
use tern_scheduler.Model.Task.{Task, TaskChange, set_state}
use tern_scheduler.Errors.{invalid_task_state}
use tern_scheduler.Errors.Exec.{ok, err}
use tern_scheduler.Db.MemTable.{write_all}
use tern_scheduler.Store.Database.{Database, task_model}
use tern_scheduler.Store.Database.Laws.{task_at, job_at, IsConsistent}
use tern_scheduler.Store.Tasks.{mark_task_state}
use tern_scheduler.Store.Tasks.States.{mark_task_state-Outcome, mark_answer, mark_row}

module _ (pk : String) (named : pk ≢ "") (db : Database) (v : IsConsistent db)
    (expected new : TaskState) (extra : List TaskChange) (t : Task)
    (found : task_at pk db ≡ some t) where
  abbrev pub moved : Database
  moved = (mark_task_state pk expected new extra db).1

  pub moved-IsConsistent : IsConsistent moved
  moved-IsConsistent = (mark_task_state-Outcome pk named db v expected new extra).consistent

  pub job_at-moved : (k : String) → job_at k moved ≡ job_at k db
  job_at-moved k = rw (mark_task_state-Outcome pk named db v expected new extra).jobs

  answer_eq : (mark_task_state pk expected new extra db).0 ≡ mark_answer pk expected new (some t)
  answer_eq = (mark_task_state-Outcome pk named db v expected new extra).answers ∙ rw found

  row_eq : task_at pk moved ≡ some (mark_row expected new extra t)
  row_eq =
      (mark_task_state-Outcome pk named db v expected new extra).rows pk ∙ rw (same_refl pk, found)

  -- In the expected state the row moves on.
  pub granted :
      same_task_state t.state expected ≡ true
      → (mark_task_state pk expected new extra db ≡ (ok tt, moved))
        × (task_at pk moved ≡ some (write_all task_model (extra ++ set_state new ∷ []) t))
  granted e = (ap (λ r. (r, moved)) (answer_eq ∙ rw e), row_eq ∙ rw e)

  -- In another state the call is refused, and the row stays.
  pub refused :
      same_task_state t.state expected ≡ false
      → (mark_task_state pk expected new extra db
          ≡ (err (invalid_task_state t new expected), moved))
        × (task_at pk moved ≡ some t)
  refused e = (ap (λ r. (r, moved)) (answer_eq ∙ rw e), row_eq ∙ rw e)
