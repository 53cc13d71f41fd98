-- ===== src/Cron/Next/Ends.antt =====
-- nextCronTime of packages/core/src/lib/strategies/task-creation/cron/next.ts as a whole, and the
-- fuel of its loops.
use tern_scheduler.Prelude.{ℕ, ◌≢◌, refl, arith, Option, none, some, Bool-cases, inl, inr}
use tern_scheduler.Cron.Calendar.{DateTime}
use tern_scheduler.Cron.Calendar.Laws.{IsTime}
use tern_scheduler.Cron.Next.{
  ScheduleCronModel, next_time, Search, found, exhausted, invalid, stuck, month_rounds, endless,
  is_over, to_utc, conclude, search_from, next_cron_time,
}
use tern_scheduler.Cron.Next.DayLoop.{IsEveryWeekDay}
use tern_scheduler.Cron.Next.Rounds.{search_months_ends}
use tern_scheduler.Cron.Next.Times.{TimeStep, next_time-TimeStep}
use tern_scheduler.Cron.Next.Fires.{
  IsInRange, start, start-IsTime, next_cron_time_over, next_cron_time_searches,
}

to_utc_ends :
    (model : ScheduleCronModel) (farthest_year : ℕ) (t : DateTime)
    → to_utc model farthest_year t ≢ endless
to_utc_ends model farthest_year t = λ e. ground arith

conclude_ends :
    (model : ScheduleCronModel) (farthest_year : ℕ) (r : Search)
    → r ≢ stuck
    → conclude model farthest_year r ≢ endless
conclude_ends model farthest_year (found t) h = to_utc_ends model farthest_year t
conclude_ends model farthest_year (exhausted t) h = to_utc_ends model farthest_year t
conclude_ends model farthest_year invalid h = λ e. cc
conclude_ends model farthest_year stuck h = λ e. h refl

search_from_ends :
    (model : ScheduleCronModel) (farthest_year : ℕ) (o : Option DateTime)
    → IsInRange model.cron
    → IsEveryWeekDay model.cron
    → TimeStep model.cron o
    → search_from model farthest_year o ≢ endless
search_from_ends model farthest_year none c w s = λ e. cc
search_from_ends model farthest_year (some t) c w s = conclude_ends model farthest_year _ (
    search_months_ends 1 farthest_year (month_rounds farthest_year) model.cron t s.is_time.on_day
      c.calendar w (omega arith) (omega arith))

-- When every day of the week is on its increasing list, the other lists are in the ranges of a
-- clock and a calendar, and now is a valid time, the fuel of both loops is enough: the search
-- ends, with a time, with none, or with an invalid date.
pub next_cron_time_ends :
    (model : ScheduleCronModel) (now : DateTime)
    → IsTime now
    → IsInRange model.cron
    → IsEveryWeekDay model.cron
    → next_cron_time model now ≢ endless
next_cron_time_ends model now v c w = elim (Bool-cases (is_over model.end_by now)) [
  | inl e ↦ rw (next_cron_time_over model now e) (λ h. cc)
  | inr e ↦ rw (next_cron_time_searches model now e) (
      search_from_ends model _ (next_time model.cron (start model now)) c w
        (next_time-TimeStep model.cron c.clock (start model now) (start-IsTime model now v).on_day))
]
