-- ===== src/Examples/Tasks.antt =====
-- Runs of the task methods of packages/core/src/lib/datastore/db-impl.ts.
use tern_scheduler.Prelude.{some, [], ◌∷◌, ◌≡◌, refl, pos, same}
use tern_scheduler.Model.Value.{pending, queued}
use tern_scheduler.Model.Task.{Task, set_execution_queued}
use tern_scheduler.Errors.{invalid_task_state}
use tern_scheduler.Errors.Exec.{ok, err}
use tern_scheduler.Db.Conditional.{matches_record}
use tern_scheduler.Db.MemTable.{update_rows, conditional_update}
use tern_scheduler.Store.Database.{update_task, find_tasks}
use tern_scheduler.Store.Database.Laws.{task_at}
use tern_scheduler.Store.Tasks.{mark_task_state, mark_task_queued}
use tern_scheduler.Store.Tasks.States.{MarkOutcome, mark_answer, mark_row, mark_task_state-Outcome}
use tern_scheduler.Store.Calls.{starts, run}
use tern_scheduler.Store.Calls.StartOnce.{queued_once}
use tern_scheduler.Examples.{backup_task, backup_db, task1_named, backup-IsConsistent}

mark_task_state-Outcome_example :
    MarkOutcome
      (mark_answer "task1" pending queued (task_at "task1" backup_db))
      (mark_row pending queued (set_execution_queued (some (pos 7)) ∷ []))
      "task1"
      backup_db
      (mark_task_state "task1" pending queued (set_execution_queued (some (pos 7)) ∷ []) backup_db)
mark_task_state-Outcome_example =
    mark_task_state-Outcome "task1" task1_named backup_db backup-IsConsistent pending queued
      (set_execution_queued (some (pos 7)) ∷ [])

queued_granted : (mark_task_queued backup_task (pos 7) backup_db).0 ≡ ok tt
unfolding mark_task_queued mark_task_state update_task find_tasks conditional_update update_rows
    matches_record same
queued_granted = refl

queued_once_example :
    (t : Task) × ((mark_task_queued backup_task (pos 9) (
        run
          (mark_task_queued backup_task (pos 7) backup_db).1
          (starts backup_task (pos 8) "exec1" ∷ []))).0
      ≡ err (invalid_task_state t queued pending))
queued_once_example =
    queued_once backup_task backup_task (pos 7) (pos 9) backup_db
      (starts backup_task (pos 8) "exec1" ∷ []) task1_named refl backup-IsConsistent queued_granted
      (task1_named, tt)
