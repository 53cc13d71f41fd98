-- ===== src/Examples/Timers.antt =====
-- The background of a node (packages/core/src/lib/basics.ts, strategies/poll.ts).
use tern_scheduler.Prelude.{◌+◌, ◌%◌, ◌≡◌, ◌≢◌, refl, arith, true, none, some, [], ◌∷◌}
use tern_scheduler.Errors.{other}
use tern_scheduler.Errors.Exec.{ok}
use tern_scheduler.Wire.Loop.{get_or, poll_loop, poll_delays}
use tern_scheduler.Wire.Loop.Delays.{poll_loop-poll_delays}
use tern_scheduler.Wire.Timers.{
  PollingCallback, new_polling, register_poll_callback, register_times, call_back, delete_callback,
  time_out, stop, active_count, registers, times_out, stops, Reach, here, next,
}
use tern_scheduler.Wire.Timers.Once.{IsSound, reach-IsSound}
use tern_scheduler.Wire.Timers.Stopped.{time_outs, reach_stopped}

-- Two callbacks; the first one registers a third and throws; a stop.
abbrev two : PollingCallback
two = register_poll_callback (register_poll_callback (new_polling true))

abbrev stopped : PollingCallback
stopped = stop (time_out 0 1 (some (other "refused")) two)

two_listed : Reach (new_polling true) two
two_listed = next (next here (registers _)) (registers _)

way : Reach (new_polling true) stopped
unfolding register_poll_callback
way = next (next two_listed (times_out two 0 1 (some (other "refused")) refl)) (stops _)

reach-IsSound_example : IsSound [] stopped
reach-IsSound_example = reach-IsSound true stopped way

-- After the stop a registration is ignored, and the second callback is dropped.
abbrev later : PollingCallback
later = time_out 1 0 none (register_poll_callback stopped)

abbrev rest : Reach stopped later
unfolding register_poll_callback register_times call_back delete_callback time_out stop
rest =
    next (next here (registers stopped)) (times_out (register_poll_callback stopped) 1 0 none refl)

reach_stopped_example :
    (later.called ≡ stopped.called) × (active_count later + time_outs rest ≡ active_count stopped)
unfolding stop
reach_stopped_example = reach_stopped stopped later rest reach-IsSound_example refl

one_called :
    (stopped.called ≡ 0 ∷ [])
    × (stopped.running_callbacks ≡ 1 ∷ 2 ∷ [])
    × (later.running_callbacks ≡ 2 ∷ [])
unfolding register_poll_callback register_times call_back delete_callback time_out stop
one_called = (refl, refl, refl)

poll_loop-poll_delays_example :
    get_or 0 4
      (poll_delays 10 (record { first_time = 1; other_times = 5 ∷ 60 ∷ []; poll_index = 0 }))
    ≡ get_or 0 (4 % 3) (1 ∷ 5 ∷ 60 ∷ [])
unfolding poll_loop
poll_loop-poll_delays_example =
    poll_loop-poll_delays (1 ∷ 5 ∷ 60 ∷ [])
      (record { first_time = 1; other_times = 5 ∷ 60 ∷ []; poll_index = 0 }) 10 4 refl (omega arith)

no_times : poll_loop [] ≢ ok (record { first_time = 0; other_times = []; poll_index = 0 })
unfolding poll_loop
no_times = λ e. cc
