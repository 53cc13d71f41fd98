-- ===== src/Wire/Loop.antt =====
-- pollLoop of packages/core/src/lib/strategies/poll.ts.
pub mod Delays
use tern_scheduler.Prelude.{ℕ, zero, suc, ◌+◌, ◌%◌, Bool, true, false, List, [], ◌∷◌, length}
use tern_scheduler.Errors.{Error, tern_error}
use tern_scheduler.Errors.Exec.{Result, ok, err}

-- The closure's variables. `poll_times` has a value, or the loop is not begun.
pub record PollLoop : Type 0 where
  pub first_time : ℕ
  pub other_times : List ℕ
  pub poll_index : ℕ

abbrev pub poll_times : PollLoop → List ℕ
poll_times loop = loop.first_time ∷ loop.other_times

-- The value at an index, or `default` out of the list.
abbrev pub get_or : {A : Type 0} → A → ℕ → List A → A
get_or default i [] = default
get_or default zero (x ∷ xs) = x
get_or default (suc i) (x ∷ xs) = get_or default i xs

unfoldable pub poll_loop : List ℕ → Result PollLoop
poll_loop [] = err (tern_error "Invalid poll times: no values")
poll_loop (t ∷ ts) = ok (record { first_time = t; other_times = ts; poll_index = 0 })

-- One call of `pollCallback`: the delay that the next call is registered with, once `onPoll` has
-- answered, and the index moved on.
abbrev pub poll_time : PollLoop → ℕ
poll_time loop = get_or 0 loop.poll_index (poll_times loop)

unfoldable pub poll_callback : PollLoop → PollLoop
poll_callback loop = record loop { poll_index = (loop.poll_index + 1) % length (poll_times loop) }

-- The delays of so many calls, each of which is answered.
unfoldable pub poll_delays : ℕ → PollLoop → List ℕ
poll_delays zero loop = []
poll_delays (suc calls) loop = poll_time loop ∷ poll_delays calls (poll_callback loop)
