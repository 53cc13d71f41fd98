-- ===== src/Cron/Calendar.antt =====
-- Date objects as next.ts of packages/core/src/lib/strategies/task-creation/cron uses them: the
-- local fields of a time in a zone without daylight saving, and the setters, which carry over what
-- does not fit. Also internal/time-util (fromUTC and fromTimeStruct).
pub mod Laws
pub mod Shift
pub mod Order
use tern_scheduler.Prelude.{
  ℕ, zero, suc, ◌+◌, ◌-◌, ◌*◌, ◌/◌, ◌%◌, Bool, true, false, not, ◌||◌, ◌&&◌, ltb, leb, ◌==◌,
  if◌then◌else◌, ℤ, pos, negsuc,
}

-- A day. As in JavaScript months count from 0 and days from 1.
pub record Civil : Type 0 where
  pub year : ℕ
  pub month : ℕ
  pub day : ℕ

pub record DateTime : Type 0 where
  pub civil : Civil
  pub hours : ℕ
  pub minutes : ℕ
  pub seconds : ℕ
  pub millis : ℕ

abbrev pub civil_of : ℕ → ℕ → ℕ → Civil
civil_of y m d = record { year = y; month = m; day = d }

unfoldable pub is_leap : ℕ → Bool
is_leap y = (y % 4 == 0) && (not (y % 100 == 0) || (y % 400 == 0))

unfoldable pub days_in_month : ℕ → ℕ → ℕ
days_in_month y m =
    if m == 1
    then (if is_leap y then 29 else 28)
    else if (m == 3) || (m == 5) || (m == 8) || (m == 10)
    then 30
    else 31

unfoldable pub next_day : Civil → Civil
next_day c =
    if ltb c.day (days_in_month c.year c.month)
    then record c { day = c.day + 1 }
    else if ltb c.month 11
    then civil_of c.year (c.month + 1) 1
    else civil_of (c.year + 1) 0 1

unfoldable pub prev_day : Civil → Civil
prev_day c =
    if ltb 1 c.day
    then record c { day = c.day - 1 }
    else if ltb 0 c.month
    then civil_of c.year (c.month - 1) (days_in_month c.year (c.month - 1))
    else civil_of (c.year - 1) 11 31

unfoldable pub advance : ℕ → Civil → Civil
advance zero c = c
advance (suc n) c = advance n (next_day c)

unfoldable pub retreat : ℕ → Civil → Civil
retreat zero c = c
retreat (suc n) c = retreat n (prev_day c)

-- The day `day` of a month that may lie beyond the year, counted from the month's first day.
unfoldable pub make_day : ℕ → ℕ → ℕ → Civil
make_day y m zero = prev_day (civil_of (y + m / 12) (m % 12) 1)
make_day y m (suc d) = advance d (civil_of (y + m / 12) (m % 12) 1)

-- A time of a day that may lie beyond the day.
unfoldable pub make_time : Civil → ℕ → ℕ → ℕ → ℕ → DateTime
make_time c h m s ms =
    let m' = m + s / 60 in
    let h' = h + m' / 60 in
    record {
      civil = advance (h' / 24) c;
      hours = h' % 24;
      minutes = m' % 60;
      seconds = s % 60;
      millis = ms;
    }

-- `setSeconds`, `setMinutes`, `setHours`, `setDate`, `setFullYear`
unfoldable pub set_seconds : ℕ → DateTime → DateTime
unfolding make_time
set_seconds s t = make_time t.civil t.hours t.minutes s t.millis

unfoldable pub set_minutes : ℕ → DateTime → DateTime
unfolding make_time
set_minutes m t = make_time t.civil t.hours m t.seconds t.millis

unfoldable pub set_hours : ℕ → DateTime → DateTime
unfolding make_time
set_hours h t = make_time t.civil h t.minutes t.seconds t.millis

unfoldable pub set_date : ℕ → DateTime → DateTime
set_date d t = record t { civil = make_day t.civil.year t.civil.month d }

unfoldable pub set_full_year : ℕ → DateTime → DateTime
set_full_year y t = record t { civil = make_day y t.civil.month t.civil.day }

-- `setMonth(next - 1)`
unfoldable pub set_month : ℕ → DateTime → DateTime
set_month zero t = record t { civil = make_day (t.civil.year - 1) 11 t.civil.day }
set_month (suc m) t = record t { civil = make_day t.civil.year m t.civil.day }

-- The days before a year, and those of a year before a month.
unfoldable pub days_before_year : ℕ → ℕ
days_before_year y = let p = y - 1 in p * 365 + p / 4 - p / 100 + p / 400

unfoldable pub days_before_month : ℕ → ℕ → ℕ
days_before_month y zero = 0
days_before_month y (suc m) = days_before_month y m + days_in_month y m

-- `getDay()`, 0 for Sunday. The first day of year 1 is a Monday.
unfoldable pub get_day : Civil → ℕ
get_day c = (days_before_year c.year + days_before_month c.year c.month + c.day) % 7

-- `new Date(valueOf() + n minutes)`, and `setMinutes(getMinutes() + n)`.
unfoldable pub shift_minutes : ℤ → DateTime → DateTime
unfolding set_minutes
shift_minutes (pos n) t = set_minutes (t.minutes + n) t
shift_minutes (negsuc n) t =
    let total = t.hours * 60 + t.minutes in
    let days = (n - total + 1440) / 1440 in
    let rest = days * 1440 + total - suc n in
    if ltb n total
    then record t { hours = (total - suc n) / 60; minutes = (total - suc n) % 60 }
    else record t { civil = retreat days t.civil; hours = rest / 60; minutes = rest % 60 }

-- `a < b` on dates of one zone.
unfoldable pub earlier : DateTime → DateTime → Bool
earlier a b =
    if not (a.civil.year == b.civil.year)
    then ltb a.civil.year b.civil.year
    else if not (a.civil.month == b.civil.month)
    then ltb a.civil.month b.civil.month
    else if not (a.civil.day == b.civil.day)
    then ltb a.civil.day b.civil.day
    else if not (a.hours == b.hours)
    then ltb a.hours b.hours
    else if not (a.minutes == b.minutes)
    then ltb a.minutes b.minutes
    else if not (a.seconds == b.seconds)
    then ltb a.seconds b.seconds
    else ltb a.millis b.millis

-- internal/time-util/encoding.ts; here months count from 1.
pub record TimeStruct : Type 0 where
  pub millis : ℕ
  pub seconds : ℕ
  pub minutes : ℕ
  pub hours : ℕ
  pub day : ℕ
  pub month : ℕ
  pub year : ℕ

-- `new Date(year, month - 1, ...)`, for a month that is not 0 and years from 100 on.
unfoldable pub from_time_struct : TimeStruct → DateTime
unfolding make_time
from_time_struct t =
    make_time (make_day t.year (t.month - 1) t.day) t.hours (t.minutes)
      (t.seconds + t.millis / 1000) (t.millis % 1000)

unfoldable pub to_time_struct : DateTime → TimeStruct
to_time_struct t = record {
  millis = t.millis;
  seconds = t.seconds;
  minutes = t.minutes;
  hours = t.hours;
  day = t.civil.day;
  month = t.civil.month + 1;
  year = t.civil.year;
}
