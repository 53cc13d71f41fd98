-- ===== src/Wire/Events/Due.antt =====
-- pollTaskReadyToExecute of packages/core/src/lib/wire/poll-task.ts over the memory store.
use tern_scheduler.Prelude.{
  ◌≡◌, refl, arith, List, [], ◌∷◌, filter, All, Bool, false, ltb_ℤ, none, some,
}
use tern_scheduler.Model.Value.{Date, pending}
use tern_scheduler.Model.Task.{execute_at_column}
use tern_scheduler.Errors.Exec.{ok}
use tern_scheduler.Db.Conditional.{before_date, matches_record}
use tern_scheduler.Db.MemTable
use tern_scheduler.Db.MemTable.{row_matches}
use tern_scheduler.Store.Database.{task_model, find_tasks, and_conditional}
use tern_scheduler.Store.Tasks.{poll_executable_tasks, state_is}
use tern_scheduler.Controller.World.{World, Env, on_store}
use tern_scheduler.Wire.Events.{report_error, emit_each, poll_rows, poll_task_ready_to_execute}

filter_none :
    {A : Type 0} (P : A → Type 0) (p : A → Bool) (xs : List A)
    → All P xs
    → ((a : A) → P a → p a ≡ false)
    → filter p xs ≡ []
filter_none P p [] all h = refl
filter_none P p (x ∷ xs) all h = rw (h x all.0, filter_none P p xs all.1 h) refl

-- When every task of the memory store is due, that is to be executed at or before now, the poll for
-- the tasks that are ready to execute does nothing: it answers and leaves the world as it is, so
-- that no task is queued or started and no event emitted.
pub poll_task_ready_to_execute-due :
    (env : Env) (now : Date) (w : World)
    → All (λ t. ltb_ℤ now t.execute_at ≡ false) w.db.tasks.rows
    → poll_task_ready_to_execute env now w ≡ (ok tt, w)
unfolding poll_task_ready_to_execute poll_rows on_store poll_executable_tasks find_tasks
    MemTable.find matches_record report_error emit_each
poll_task_ready_to_execute-due env now w due =
    let c = and_conditional (before_date execute_at_column now ∷ state_is pending ∷ []) in
    let nothing : filter (row_matches task_model none (some c)) w.db.tasks.rows ≡ [] =
      filter_none (λ t. ltb_ℤ now t.execute_at ≡ false) _ w.db.tasks.rows due
        (λ t h. ground (arith, h)) in
    rw nothing refl
