-- ===== src/Store/Tasks/States.antt =====
-- markTaskState of packages/core/src/lib/datastore/db-impl.ts and the state machine of a task.
use tern_scheduler.Prelude.{
  String, Option, none, some, List, [], ◌∷◌, ◌++◌, if◌then◌else◌, ◌≡◌, ◌≢◌, refl, arith, same,
  same_refl, ◌∙◌,
}
use tern_scheduler.Model.Value.{TaskState, same_task_state}
use tern_scheduler.Model.Task.{Task, TaskChange, set_state}
use tern_scheduler.Errors.{task_not_found, invalid_task_state}
use tern_scheduler.Errors.Exec.{Result, ok, err}
use tern_scheduler.Db.Conditional.{matches_record}
use tern_scheduler.Db.MemTable.{passes, write_all}
use tern_scheduler.Db.MemTable.Lookup.{map_option}
use tern_scheduler.Store.Database.{Database, task_model, update_task}
use tern_scheduler.Store.Database.Laws.{
  task_at, IsConsistent, update_task-count, task_at-update_task, find_tasks-key,
  update_task-IsConsistent,
}
use tern_scheduler.Store.Tasks.{mark_task_state, state_is}

-- What the marking answers, given the row of its key.
abbrev pub mark_answer : String → TaskState → TaskState → Option Task → Result (Unit {0})
mark_answer pk expected new none = err (task_not_found pk)
mark_answer pk expected new (some t) =
    if same_task_state t.state expected then ok tt else err (invalid_task_state t new expected)

-- What the marking makes of the row of its key.
abbrev pub mark_row : TaskState → TaskState → List TaskChange → Task → Task
mark_row expected new extra t =
    if same_task_state t.state expected
    then write_all task_model (extra ++ set_state new ∷ []) t
    else t

abbrev pub AtKey : (Task → Task) → String → Database → Database → Type 0
AtKey f pk db after =
    (k : String)
    → task_at k after ≡ (if same pk k then map_option f (task_at k db) else task_at k db)

-- How a marking left the database: its answer, the rows, and the jobs, which stay.
pub record MarkOutcome (answer : Result (Unit {0})) (f : Task → Task) (pk : String) (db : Database)
    (after : Result (Unit {0}) × Database) : Type 0 where
  pub answers : after.0 ≡ answer
  pub rows : AtKey f pk db after.1
  pub jobs : after.1.jobs ≡ db.jobs
  pub consistent : IsConsistent after.1

passes_eq :
    (expected : TaskState) (t : Task)
    → passes task_model (some (state_is expected)) t ≡ same_task_state t.state expected
unfolding matches_record
passes_eq expected t = refl

module _ (pk : String) (named : pk ≢ "") (db : Database) (v : IsConsistent db)
    (expected new : TaskState) (extra : List TaskChange) where
  abbrev marked : Database
  marked = (update_task pk (extra ++ set_state new ∷ []) (state_is expected) db).1

  rows_after : AtKey (mark_row expected new extra) pk db marked
  rows_after k =
      task_at-update_task pk named (extra ++ set_state new ∷ []) (state_is expected) db k
      ∙ split (task_at k db)
    where
      split :
          (o : Option Task)
          → (if same pk k
              then map_option
                  (λ r.
                    if passes task_model (some (state_is expected)) r
                    then write_all task_model (extra ++ set_state new ∷ []) r
                    else r)
                  o
              else o)
            ≡ (if same pk k then map_option (mark_row expected new extra) o else o)
      split none = refl
      split (some t) = rw (passes_eq expected t)

  task_after : task_at pk marked ≡ map_option (mark_row expected new extra) (task_at pk db)
  task_after = rows_after pk ∙ rw (same_refl pk)

  answer_after :
      mark_task_state pk expected new extra db
      ≡ (mark_answer pk expected new (task_at pk db), marked)
  unfolding mark_task_state matches_record
  answer_after =
      rw (update_task-count pk named (extra ++ set_state new ∷ []) (state_is expected) db v)
        (ground (arith, task_after, find_tasks-key pk marked))

  -- A marking, in a consistent store and under a key that is not empty, changes exactly the row of
  -- its key, and that only from the state that it expects; from another state, or without a row,
  -- it is rejected; the jobs stay.
  pub mark_task_state-Outcome :
      MarkOutcome
        (mark_answer pk expected new (task_at pk db))
        (mark_row expected new extra)
        pk
        db
        (mark_task_state pk expected new extra db)
  mark_task_state-Outcome = rw answer_after (record {
    answers = refl;
    rows = rows_after;
    jobs = unfold update_task in refl;
    consistent = update_task-IsConsistent db v pk _ _;
  })
