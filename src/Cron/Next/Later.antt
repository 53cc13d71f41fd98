-- ===== src/Cron/Next/Later.antt =====
-- The time of the day that nextCronTime of
-- packages/core/src/lib/strategies/task-creation/cron/next.ts starts its search from, in the
-- order of times.
use tern_scheduler.Prelude.{ℕ, suc, ◌+◌, ◌*◌, ◌≤◌, ◌≡◌, ap, arith, Option, none, some}
use tern_scheduler.Cron.Calendar.{DateTime, make_day, set_seconds, set_minutes, set_hours, set_date}
use tern_scheduler.Cron.Calendar.Laws.{IsDay, IsTime}
use tern_scheduler.Cron.Calendar.Shift.{
  set_seconds-IsTime, set_minutes-IsTime, set_hours-IsTime, set_date-IsTime,
}
use tern_scheduler.Cron.Calendar.Order.{day_rank, rank, make_time_later, make_day_later}
use tern_scheduler.Cron.Next.{CronModel, next_second, next_minute, next_hour, next_time, ◌>>=◌}
use tern_scheduler.Cron.Next.Times.{IsClockModel, or_wrap_rule}

pub set_seconds_later :
    (s : ℕ) (t : DateTime)
    → IsDay t.civil
    → day_rank t.civil * 86400 + t.hours * 3600 + t.minutes * 60 + s ≤ rank (set_seconds s t)
unfolding set_seconds
set_seconds_later s t v = make_time_later t.civil t.hours t.minutes s t.millis v

set_minutes_later :
    (m : ℕ) (t : DateTime)
    → IsDay t.civil
    → day_rank t.civil * 86400 + t.hours * 3600 + m * 60 + t.seconds ≤ rank (set_minutes m t)
unfolding set_minutes
set_minutes_later m t v = make_time_later t.civil t.hours m t.seconds t.millis v

set_hours_later :
    (h : ℕ) (t : DateTime)
    → IsDay t.civil
    → day_rank t.civil * 86400 + h * 3600 + t.minutes * 60 + t.seconds ≤ rank (set_hours h t)
unfolding set_hours
set_hours_later h t v = make_time_later t.civil h t.minutes t.seconds t.millis v

next_date_later :
    (t : DateTime) → IsDay t.civil → rank t + 86400 ≤ rank (set_date (t.civil.day + 1) t)
unfolding set_date
next_date_later t v =
    let k : make_day t.civil.year t.civil.month (t.civil.day + 1)
        ≡ make_day t.civil.year t.civil.month (suc t.civil.day) =
      ap (make_day t.civil.year t.civil.month) (omega arith) in
    rw k (omega (arith, make_day_later t.civil.year t.civil.month t.civil.day v.month_in))

-- A valid time, not before the given one.
abbrev pub NotBefore : DateTime → Option DateTime → Type 0
NotBefore t none = Unit
NotBefore t (some t') = IsTime t' × (rank t ≤ rank t')

module _ (model : CronModel) (c : IsClockModel model) (t : DateTime) (v : IsTime t) where
  next_second-NotBefore : NotBefore t (next_second model t)
  unfolding next_second
  next_second-NotBefore =
      or_wrap_rule (NotBefore t) t.seconds 59 model.seconds _ _ c.seconds_in (λ e. tt)
        (λ n l h p.
          (set_seconds-IsTime n t v.on_day, omega (arith, set_seconds_later n t v.on_day)))
        (λ n l h.
          let u = set_seconds n t in
          let w = set_seconds-IsTime n t v.on_day in
          (
            set_minutes-IsTime (u.minutes + 1) u w.on_day,
            omega (
              arith,
              v.seconds_in,
              set_seconds_later n t v.on_day,
              set_minutes_later (u.minutes + 1) u w.on_day,
            ),
          ))

  next_minute-NotBefore : NotBefore t (next_minute model t)
  unfolding next_minute
  next_minute-NotBefore =
      or_wrap_rule (NotBefore t) t.minutes 59 model.minutes _ _ c.minutes_in (λ e. tt)
        (λ n l h p.
          (set_minutes-IsTime n t v.on_day, omega (arith, set_minutes_later n t v.on_day)))
        (λ n l h.
          let u = set_minutes n t in
          let w = set_minutes-IsTime n t v.on_day in
          (
            set_hours-IsTime (u.hours + 1) u w.on_day,
            omega (
              arith,
              v.minutes_in,
              set_minutes_later n t v.on_day,
              set_hours_later (u.hours + 1) u w.on_day,
            ),
          ))

  next_hour-NotBefore : NotBefore t (next_hour model t)
  unfolding next_hour
  next_hour-NotBefore =
      or_wrap_rule (NotBefore t) t.hours 23 model.hours _ _ c.hours_in (λ e. tt)
        (λ n l h p. (set_hours-IsTime n t v.on_day, omega (arith, set_hours_later n t v.on_day)))
        (λ n l h.
          let u = set_hours n t in
          let w = set_hours-IsTime n t v.on_day in
          (
            set_date-IsTime (u.civil.day + 1) u w,
            omega (arith, v.hours_in, set_hours_later n t v.on_day, next_date_later u w.on_day),
          ))

after-NotBefore :
    (t t' : DateTime) (o : Option DateTime) → rank t ≤ rank t' → NotBefore t' o → NotBefore t o
after-NotBefore t t' none h n = tt
after-NotBefore t t' (some u) h (v, k) = (v, omega (arith, h, k))

module _ (model : CronModel) (c : IsClockModel model) where
  minutes-NotBefore :
      (t : DateTime) (o : Option DateTime) → NotBefore t o → NotBefore t (o >>= next_hour model)
  minutes-NotBefore t none n = tt
  minutes-NotBefore t (some t') (v, h) =
      after-NotBefore t t' (next_hour model t') h (next_hour-NotBefore model c t' v)

  seconds-NotBefore :
      (t : DateTime) (o : Option DateTime)
      → NotBefore t o
      → NotBefore t (o >>= λ t1. next_minute model t1 >>= next_hour model)
  seconds-NotBefore t none n = tt
  seconds-NotBefore t (some t') (v, h) =
      after-NotBefore t t' (next_minute model t' >>= next_hour model) h
        (minutes-NotBefore t' (next_minute model t') (next_minute-NotBefore model c t' v))

  pub next_time-NotBefore : (t : DateTime) → IsTime t → NotBefore t (next_time model t)
  unfolding next_time
  next_time-NotBefore t v =
      seconds-NotBefore t (next_second model t) (next_second-NotBefore model c t v)
