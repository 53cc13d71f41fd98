-- ===== src/Cron/Next.antt =====
-- packages/core/src/lib/strategies/task-creation/cron/next.ts: the next time at which a schedule
-- fires. The loops run on fuel; `stuck` says that it ran out. A date that was set from the first
-- element of an empty list is invalid, and so is all that follows from it.
pub mod Values
pub mod Days
pub mod DayLoop
pub mod Months
pub mod Rounds
pub mod Times
pub mod Later
pub mod Fires
pub mod Utc
pub mod Ends
use tern_scheduler.Prelude.{
  ℕ, zero, suc, ◌+◌, ◌*◌, Bool, true, false, not, ◌&&◌, ltb, leb, ◌==◌, if◌then◌else◌, Option, none,
  some, List, [], ◌∷◌, ℤ, pos, negsuc,
}
use tern_scheduler.Cron.Calendar.{
  DateTime, TimeStruct, set_seconds, set_minutes, set_hours, set_date, set_month, set_full_year,
  get_day, shift_minutes, earlier, from_time_struct,
}

-- api.ts. The six lists are CronModel; the expression itself is not read again.
pub record CronModel : Type 0 where
  pub seconds : List ℕ
  pub minutes : List ℕ
  pub hours : List ℕ
  pub days_of_month : List ℕ
  pub months : List ℕ
  pub days_of_week : List ℕ

pub record ScheduleCronModel : Type 0 where
  pub cron : CronModel
  pub utc_offset_minutes : ℤ
  pub start_after : Option TimeStruct
  pub end_by : Option TimeStruct

abbrev pub maximum_year_in_future : ℕ
maximum_year_in_future = 10

-- The value that `findNext` hands to `found`, or none for `notFound`.
unfoldable pub find_next : ℕ → List ℕ → Option ℕ
find_next value [] = none
find_next value (i ∷ range) = if leb value i then some i else find_next value range

-- Either `found(next)`, or what `notFound` does with the first value of the range.
abbrev pub or_wrap : Option ℕ → List ℕ → (ℕ → DateTime) → (ℕ → DateTime) → Option DateTime
or_wrap (some next) range found wrapped = some (found next)
or_wrap none [] found wrapped = none
or_wrap none (x ∷ xs) found wrapped = some (wrapped x)

unfoldable pub next_second : CronModel → DateTime → Option DateTime
next_second model t =
    or_wrap (find_next t.seconds model.seconds) model.seconds (λ next. set_seconds next t)
      (λ s. let t' = set_seconds s t in set_minutes (t'.minutes + 1) t')

unfoldable pub next_minute : CronModel → DateTime → Option DateTime
next_minute model t =
    or_wrap (find_next t.minutes model.minutes) model.minutes (λ next. set_minutes next t)
      (λ m. let t' = set_minutes m t in set_hours (t'.hours + 1) t')

unfoldable pub next_hour : CronModel → DateTime → Option DateTime
next_hour model t =
    or_wrap (find_next t.hours model.hours) model.hours (λ next. set_hours next t)
      (λ h. let t' = set_hours h t in set_date (t'.civil.day + 1) t')

infixl 5 ◌>>=◌
abbrev pub ◌>>=◌ : {A B : Type 0} → Option A → (A → Option B) → Option B
none >>= f = none
some a >>= f = f a

unfoldable pub next_time : CronModel → DateTime → Option DateTime
next_time model t = do t1 ← next_second model t; t2 ← next_minute model t1; next_hour model t2

-- One round of the inner loop: the day is found, or the month is over, or it is another day of the
-- week, and the next round starts from that day.
pub data DayStep : Type 0 where
  matched : DateTime → DayStep
  increment : DayStep
  same_month : DateTime → DayStep

abbrev pub is_week_match : CronModel → DateTime → Bool
is_week_match model t = elim (find_next (get_day t.civil) model.days_of_week) [
  | none ↦ false
  | some next_week_day ↦ next_week_day == get_day t.civil
]

abbrev pub try_day : CronModel → DateTime → DateTime → DayStep
try_day model t trial =
    if not (trial.civil.month == t.civil.month)
    then increment
    else if is_week_match model trial
    then matched trial
    else same_month trial

unfoldable pub day_step : CronModel → DateTime → DayStep
day_step model t = elim (find_next t.civil.day model.days_of_month) [
  | none ↦ increment
  | some next ↦ try_day model t (set_date next t)
]

pub data DaySearch : Type 0 where
  day_found : DateTime → DaySearch
  month_over : DaySearch
  day_stuck : DaySearch

unfoldable pub find_day : ℕ → CronModel → DateTime → DaySearch
find_day zero model t = day_stuck
find_day (suc fuel) model t = elim (day_step model t) [
  | matched t' ↦ day_found t'
  | increment ↦ month_over
  | same_month t' ↦ find_day fuel model t'
]

-- The first step of the outer loop: a month of the schedule.
unfoldable pub find_month : CronModel → DateTime → Option DateTime
find_month model t =
    or_wrap (find_next (t.civil.month + 1) model.months) model.months
      (λ next. if next == t.civil.month + 1 then t else set_month next (set_date 1 t))
      (λ m. let t' = set_month m (set_date 1 t) in set_full_year (t'.civil.year + 1) t')

-- The last step: the first day of the next month.
abbrev pub increment_month : DateTime → DateTime
increment_month t = let t' = set_date 1 t in set_month (suc (t'.civil.month + 1)) t'

pub data Search : Type 0 where
  found : DateTime → Search
  exhausted : DateTime → Search
  invalid : Search
  stuck : Search

unfoldable pub search_months : ℕ → ℕ → ℕ → CronModel → DateTime → Search
search_months day_fuel farthest_year zero model t = stuck
search_months day_fuel farthest_year (suc fuel) model t = elim (ltb t.civil.year farthest_year) [
  | false ↦ exhausted t
  | true ↦ elim (find_month model t) [
    | none ↦ invalid
    | some t1 ↦ elim (find_day day_fuel model t1) [
      | day_found t2 ↦ found t2
      | month_over ↦ search_months day_fuel farthest_year fuel model (increment_month t1)
      | day_stuck ↦ stuck
    ]
  ]
]

-- The fuel of the two loops. A day that does not match is met again, so more rounds find no other
-- day; every round of the outer loop goes at least one month on.
abbrev pub day_rounds : ℕ
day_rounds = 2

abbrev pub month_rounds : ℕ → ℕ
month_rounds farthest_year = 12 * farthest_year + 1

abbrev pub search : ℕ → CronModel → DateTime → Search
search farthest_year model t =
    search_months day_rounds farthest_year (month_rounds farthest_year) model t

pub data CronTime : Type 0 where
  at : DateTime → CronTime
  never : CronTime
  invalid_date : CronTime
  endless : CronTime

abbrev pub negate_ℤ : ℤ → ℤ
negate_ℤ (pos zero) = pos 0
negate_ℤ (pos (suc n)) = negsuc n
negate_ℤ (negsuc n) = pos (suc n)

abbrev pub is_over : Option TimeStruct → DateTime → Bool
is_over none t = false
is_over (some end) t = not (earlier t (from_time_struct end))

-- `startAfter`, if `now` is before it.
abbrev pub start_from : Option TimeStruct → DateTime → DateTime
start_from none now = now
start_from (some start) now =
    if earlier now (from_time_struct start) then from_time_struct start else now

-- The next second, and on a full second.
abbrev pub next_full_second : DateTime → DateTime
next_full_second t = let t' = set_seconds (t.seconds + 1) t in record t' { millis = 0 }

-- The search's end: in UTC again, and within the limits.
abbrev pub to_utc : ScheduleCronModel → ℕ → DateTime → CronTime
to_utc model farthest_year t =
    let ret = shift_minutes (negate_ℤ model.utc_offset_minutes) t in
    if is_over model.end_by ret
    then never
    else if leb farthest_year ret.civil.year
    then never
    else at ret

abbrev pub conclude : ScheduleCronModel → ℕ → Search → CronTime
conclude model farthest_year (found t) = to_utc model farthest_year t
conclude model farthest_year (exhausted t) = to_utc model farthest_year t
conclude model farthest_year invalid = invalid_date
conclude model farthest_year stuck = endless

abbrev pub search_from : ScheduleCronModel → ℕ → Option DateTime → CronTime
search_from model farthest_year none = invalid_date
search_from model farthest_year (some t) =
    conclude model farthest_year (search farthest_year model.cron t)

unfoldable pub next_cron_time : ScheduleCronModel → DateTime → CronTime
next_cron_time model now =
    let farthest_year = now.civil.year + maximum_year_in_future in
    let start = next_full_second (start_from model.start_after now) in
    if is_over model.end_by now
    then never
    else search_from model farthest_year
        (next_time model.cron (shift_minutes model.utc_offset_minutes start))
