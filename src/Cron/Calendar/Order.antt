-- ===== src/Cron/Calendar/Order.antt =====
-- The order of days and times in packages/core/src/lib/strategies/task-creation/cron/next.ts, and
-- the setters in it.
use tern_scheduler.Prelude.{ℕ, zero, suc, ◌+◌, ◌*◌, ◌/◌, ◌%◌, ◌≤◌, ◌<◌, arith}
use tern_scheduler.Cron.Calendar.{Civil, DateTime, civil_of, next_day, advance, make_day, make_time}
use tern_scheduler.Cron.Calendar.Laws.{IsDay, days_in_month_bounds, next_day-IsDay}

-- Numbers that grow with the days, and with the seconds of valid times.
abbrev pub day_rank : Civil → ℕ
day_rank c = (c.year * 12 + c.month) * 32 + c.day

abbrev pub rank : DateTime → ℕ
rank t = day_rank t.civil * 86400 + t.hours * 3600 + t.minutes * 60 + t.seconds

next_day_later : (c : Civil) → IsDay c → day_rank c < day_rank (next_day c)
unfolding next_day
next_day_later c v = ground (arith, days_in_month_bounds c.year c.month)

pub advance_later : (n : ℕ) (c : Civil) → IsDay c → day_rank c + n ≤ day_rank (advance n c)
unfolding advance
advance_later zero c v = omega arith
advance_later (suc n) c v =
    omega (arith, next_day_later c v, advance_later n (next_day c) (next_day-IsDay c v))

-- The time that is made is not before the sum of its parts.
pub make_time_later :
    (c : Civil) (h m s ms : ℕ)
    → IsDay c
    → day_rank c * 86400 + h * 3600 + m * 60 + s ≤ rank (make_time c h m s ms)
unfolding make_time
make_time_later c h m s ms v = omega (arith, advance_later ((h + (m + s / 60) / 60) / 24) c v)

pub make_day_later :
    (y m d : ℕ) → m < 12 → (y * 12 + m) * 32 + 1 + d ≤ day_rank (make_day y m (suc d))
unfolding make_day
make_day_later y m d h =
    let first : IsDay (civil_of (y + m / 12) (m % 12) 1) =
      omega (arith, days_in_month_bounds (y + m / 12) (m % 12)) in
    omega (arith, advance_later d (civil_of (y + m / 12) (m % 12) 1) first)
