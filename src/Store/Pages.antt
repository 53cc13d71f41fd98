-- ===== src/Store/Pages.antt =====
-- Paging in packages/core/src/lib/datastore/db-impl.ts: page keys, pages, and the methods that
-- answer with a page. A page key is the text of a number, or not a number at all.
pub mod Overlap
use tern_scheduler.Prelude.{
  ℕ, ◌+◌, Bool, true, false, Option, none, some, List, [], ◌∷◌, ltb, if◌then◌else◌, length,
}
use tern_scheduler.Model.Value.{
  Date, pending, started, start_error, complete_error, failed, fail_restarted, completed, flag,
}
use tern_scheduler.Model.Schedule.{ScheduledJob, pasture_column}
use tern_scheduler.Model.Task.{Task}
use tern_scheduler.Errors.Exec.{Exec, pure, ◌>>=◌}
use tern_scheduler.Db.Conditional.{equals}
use tern_scheduler.Store.Database.{Database, find_jobs, find_tasks}
use tern_scheduler.Store.Tasks.{state_is, state_in, finished_states}

-- A JavaScript number, as far as page keys are concerned.
pub data Number : Type 0 where
  num : ℕ → Number
  nan : Number

abbrev pub add_number : Number → ℕ → Number
add_number (num a) b = num (a + b)
add_number nan b = nan

pub record Page (T : Type 0) : Type 0 where
  pub next_page_key : Option Number
  pub estimated_count : Number
  pub page_size : ℕ
  pub page : List T

-- `startIndexMaybe === NaN`, which holds of no number.
abbrev pub is_nan_strictly : Number → Bool
is_nan_strictly n = false

-- `Number(pageKey || '0')`
abbrev pub key_number : Option Number → Number
key_number none = num 0
key_number (some n) = n

unfoldable pub parse_page_key : Option Number → Number
parse_page_key page_key =
    let start_index_maybe = key_number page_key in
    if is_nan_strictly start_index_maybe then num 0 else start_index_maybe

-- The start that `splice(0, startIndex)` takes: NaN counts as 0.
abbrev pub start_row : Number → ℕ
start_row (num n) = n
start_row nan = 0

-- `rows.slice(1)` in the source has no effect.
unfoldable pub page_results : {T : Type 0} → List T → Number → ℕ → Page T
page_results rows start_index limit =
    if ltb limit (length rows)
    then record {
      next_page_key = some (add_number start_index limit);
      estimated_count = add_number start_index (length rows);
      page_size = limit;
      page = rows;
    }
    else record {
      next_page_key = none;
      estimated_count = add_number start_index (length rows);
      page_size = limit;
      page = rows;
    }

unfoldable pub get_active_scheduled_jobs : Option Number → ℕ → Exec Database (Page ScheduledJob)
get_active_scheduled_jobs page_key limit = do
  let start_index = parse_page_key page_key
  rows ← find_jobs (start_row start_index) (limit + 1) (equals pasture_column (flag false))
  pure (page_results rows start_index limit)

unfoldable pub get_disabled_scheduled_jobs : Option Number → ℕ → Exec Database (Page ScheduledJob)
get_disabled_scheduled_jobs page_key limit = do
  let start_index = parse_page_key page_key
  rows ← find_jobs (start_row start_index) (limit + 1) (equals pasture_column (flag true))
  pure (page_results rows start_index limit)

unfoldable pub get_executing_tasks : Option Number → ℕ → Exec Database (Page Task)
get_executing_tasks page_key limit = do
  let start_index = parse_page_key page_key
  rows ← find_tasks (start_row start_index) (limit + 1) (state_is started)
  pure (page_results rows start_index limit)

unfoldable pub get_pending_tasks : Option Number → ℕ → Exec Database (Page Task)
get_pending_tasks page_key limit = do
  let start_index = parse_page_key page_key
  rows ← find_tasks (start_row start_index) (limit + 1) (state_is pending)
  pure (page_results rows start_index limit)

-- The argument `since` of the next three is not used by the source.
unfoldable pub get_failed_tasks : Option Number → ℕ → Option Date → Exec Database (Page Task)
get_failed_tasks page_key limit since = do
  let start_index = parse_page_key page_key
  rows ←
      find_tasks (start_row start_index) (limit + 1)
        (state_in (complete_error ∷ failed ∷ fail_restarted ∷ start_error ∷ []))
  pure (page_results rows start_index limit)

unfoldable pub get_completed_tasks : Option Number → ℕ → Option Date → Exec Database (Page Task)
get_completed_tasks page_key limit since = do
  let start_index = parse_page_key page_key
  rows ← find_tasks (start_row start_index) (limit + 1) (state_is completed)
  pure (page_results rows start_index limit)

unfoldable pub get_finished_tasks : Option Number → ℕ → Option Date → Exec Database (Page Task)
get_finished_tasks page_key limit since = do
  let start_index = parse_page_key page_key
  rows ← find_tasks (start_row start_index) (limit + 1) (state_in finished_states)
  pure (page_results rows start_index limit)
