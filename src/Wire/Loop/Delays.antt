-- ===== src/Wire/Loop/Delays.antt =====
-- The delays between two calls of pollLoop (packages/core/src/lib/strategies/poll.ts).
use native.Mathlib.Nat.{mod-lt, mod-eq_of_lt, mod-add-mod}
use tern_scheduler.Prelude.{
  ℕ, zero, suc, ◌+◌, ◌%◌, ◌<◌, ◌≡◌, arith, List, [], ◌∷◌, length, ap, sym, ◌∙◌,
}
use tern_scheduler.Errors.Exec.{ok}
use tern_scheduler.Wire.Loop.{PollLoop, poll_times, get_or, poll_loop, poll_callback, poll_delays}

mod_succ : (a k n : ℕ) → (a + suc k) % suc n ≡ ((a + 1) % suc n + k) % suc n
mod_succ a k n = ap (λ m. m % suc n) (omega arith) ∙ sym (mod-add-mod (a + 1) (suc n) k)

-- From an index within the times, the delay of the k-th call is the time k places on, around the
-- end of the list.
get_or-poll_delays :
    (calls k : ℕ) (loop : PollLoop)
    → k < calls
    → loop.poll_index < length (poll_times loop)
    → get_or 0 k (poll_delays calls loop)
      ≡ get_or 0 ((loop.poll_index + k) % length (poll_times loop)) (poll_times loop)
unfolding poll_delays poll_callback
get_or-poll_delays zero k loop h b = absurd (omega arith)
get_or-poll_delays (suc calls) zero loop h b =
    ap (λ i. get_or 0 i (poll_times loop))
      (sym (mod-eq_of_lt b) ∙ ap (λ i. i % length (poll_times loop)) (omega arith))
get_or-poll_delays (suc calls) (suc k) loop h b =
    get_or-poll_delays calls k (poll_callback loop) (omega arith)
      (mod-lt (loop.poll_index + 1) (omega arith))
    ∙ ap (λ i. get_or 0 i (poll_times loop))
        (sym (mod_succ loop.poll_index k (length loop.other_times)))

-- A loop that is begun with a list of times waits for them in order, and begins again with the
-- first one after the last.
pub poll_loop-poll_delays :
    (times : List ℕ) (loop : PollLoop) (calls k : ℕ)
    → poll_loop times ≡ ok loop
    → k < calls
    → get_or 0 k (poll_delays calls loop) ≡ get_or 0 (k % length times) times
unfolding poll_loop
poll_loop-poll_delays [] loop calls k e h = absurd (cc)
poll_loop-poll_delays (t ∷ ts) loop calls k e h =
    let begun : record { first_time = t; other_times = ts; poll_index = 0 } ≡ loop = cc in
    rw (sym begun) (
      get_or-poll_delays calls k (record { first_time = t; other_times = ts; poll_index = 0 }) h
        (omega arith)
      ∙ ap (λ i. get_or 0 (i % length (t ∷ ts)) (t ∷ ts)) (omega arith))
