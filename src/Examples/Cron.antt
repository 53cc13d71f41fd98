-- ===== src/Examples/Cron.antt =====
-- Schedules of packages/core/src/lib/strategies/task-creation/cron, and the times that they fire.
use tern_scheduler.Prelude.{ℕ, ◌≤◌, ◌<◌, none, List, [], ◌∷◌, ◌≡◌, ◌≢◌, refl, arith, pos, negsuc}
use tern_scheduler.Cron.Calendar.{
  DateTime, civil_of, is_leap, days_in_month, next_day, prev_day, advance, retreat, make_day,
  make_time, set_seconds, set_minutes, set_hours, set_date, set_month, set_full_year,
  days_before_year, days_before_month, get_day, shift_minutes,
}
use tern_scheduler.Cron.Calendar.Laws.{IsDay, IsTime}
use tern_scheduler.Cron.Calendar.Order.{rank}
use tern_scheduler.Cron.Next.{
  CronModel, ScheduleCronModel, find_next, next_second, next_minute, next_hour, next_time, day_step,
  day_stuck, find_day, find_month, search_months, at, endless, next_cron_time,
}
use tern_scheduler.Cron.Next.Values.{IsLeastFrom, IsIncreasing, find_next-IsLeastFrom}
use tern_scheduler.Cron.Next.DayLoop.{find_day-endless, IsEveryWeekDay}
use tern_scheduler.Cron.Next.Fires.{IsInRange, IsFireTime}
use tern_scheduler.Cron.Next.Utc.{next_cron_time-IsFireTime}
use tern_scheduler.Cron.Next.Ends.{next_cron_time_ends}

abbrev quarters : List ℕ
quarters = 0 ∷ 15 ∷ 30 ∷ 45 ∷ []

quarters-IsIncreasing : IsIncreasing quarters
quarters-IsIncreasing = omega arith

find_next-IsLeastFrom_example : IsLeastFrom 20 quarters (find_next 20 quarters)
find_next-IsLeastFrom_example = find_next-IsLeastFrom 20 quarters quarters-IsIncreasing

-- At nine and at five, at the full and the half hour, on the 15th and the 31st.
abbrev pub office : List ℕ → CronModel
office week_days = record {
  seconds = 0 ∷ [];
  minutes = 0 ∷ 30 ∷ [];
  hours = 9 ∷ 17 ∷ [];
  days_of_month = 15 ∷ 31 ∷ [];
  months = 2 ∷ 6 ∷ 12 ∷ [];
  days_of_week = week_days;
}

abbrev pub every_week_day : List ℕ
every_week_day = 0 ∷ 1 ∷ 2 ∷ 3 ∷ 4 ∷ 5 ∷ 6 ∷ []

abbrev pub schedule : ScheduleCronModel
schedule = record {
  cron = office every_week_day;
  utc_offset_minutes = pos 0;
  start_after = none;
  end_by = none;
}

-- 15 June 2018, a Friday.
abbrev pub friday : ℕ → ℕ → DateTime
friday h m = record {
  civil = civil_of 2018 5 15;
  hours = h;
  minutes = m;
  seconds = 30;
  millis = 250;
}

abbrev first_of_june : DateTime
first_of_june = record {
  civil = civil_of 2018 5 1;
  hours = 9;
  minutes = 0;
  seconds = 0;
  millis = 0;
}

june-IsDay : (d : ℕ) → 1 ≤ d → d ≤ 30 → IsDay (civil_of 2018 5 d)
unfolding days_in_month
june-IsDay d lo hi = record { month_in = omega arith; day_in = (lo, hi) }

pub friday-IsTime : (h m : ℕ) → h < 24 → m < 60 → IsTime (friday h m)
friday-IsTime h m hh hm = record {
  on_day = june-IsDay 15 (omega arith) (omega arith);
  hours_in = hh;
  minutes_in = hm;
  seconds_in = omega arith;
}

office-IsInRange : (week_days : List ℕ) → IsInRange (office week_days)
office-IsInRange week_days = record {
  clock = record { seconds_in = omega arith; minutes_in = omega arith; hours_in = omega arith };
  calendar = record { months_in = omega arith; days_in = omega arith };
}

office-IsEveryWeekDay : IsEveryWeekDay (office every_week_day)
office-IsEveryWeekDay = record { increasing = omega arith; complete = λ d h. ground arith }

abbrev pub half_past_nine : DateTime
half_past_nine = record {
  civil = civil_of 2018 5 15;
  hours = 9;
  minutes = 30;
  seconds = 0;
  millis = 0;
}

pub next_fire : next_cron_time schedule (friday 9 10) ≡ at half_past_nine
unfolding next_cron_time next_time next_second next_minute next_hour find_next set_seconds
    set_minutes set_hours set_date set_month make_time make_day advance search_months find_month
    find_day day_step get_day days_before_year days_before_month days_in_month is_leap shift_minutes
    next_day
next_fire = refl

next_cron_time-IsFireTime_example :
    IsFireTime (office every_week_day) half_past_nine × (rank (friday 9 10) < rank half_past_nine)
next_cron_time-IsFireTime_example =
    next_cron_time-IsFireTime schedule (friday 9 10) half_past_nine
      (friday-IsTime 9 10 (omega arith) (omega arith)) (office-IsInRange every_week_day) refl
      next_fire

abbrev indian_schedule : ScheduleCronModel
indian_schedule = record schedule { utc_offset_minutes = negsuc 329 }

next_cron_time_ends_example : next_cron_time schedule (friday 18 0) ≢ endless
next_cron_time_ends_example =
    next_cron_time_ends schedule (friday 18 0) (friday-IsTime 18 0 (omega arith) (omega arith))
      (office-IsInRange every_week_day) office-IsEveryWeekDay

-- On Mondays only: the 15th of June 2018 is listed, and is none.
find_day-endless_example : find_day 1000 (office (1 ∷ [])) first_of_june ≡ day_stuck
unfolding find_next get_day days_before_year days_before_month days_in_month is_leap
find_day-endless_example =
    find_day-endless (office (1 ∷ [])) first_of_june 15 (june-IsDay 1 (omega arith) (omega arith))
      refl (omega arith) refl 1000

-- At ten, thirty seconds and a bit past, the times that the schedule has next are 10:05:00 and
-- 10:05:45; the second is answered.
abbrev twice_a_minute : ScheduleCronModel
twice_a_minute = record schedule {
  cron = record (office every_week_day) {
    seconds = 0 ∷ 45 ∷ [];
    minutes = 5 ∷ [];
    hours = 10 ∷ [];
  };
}

skips_a_second :
    next_cron_time twice_a_minute (friday 10 0)
    ≡ at (record { civil = civil_of 2018 5 15; hours = 10; minutes = 5; seconds = 45; millis = 0 })
unfolding next_cron_time next_time next_second next_minute next_hour find_next set_seconds
    set_minutes set_hours set_date set_month make_time make_day advance search_months find_month
    find_day day_step get_day days_before_year days_before_month days_in_month is_leap shift_minutes
    next_day
skips_a_second = refl

-- No day is listed: with a positive offset the search's end, in the farthest year, is shifted back
-- into the year before.
abbrev no_such_day : ScheduleCronModel
no_such_day = record schedule {
  cron = record (office every_week_day) { days_of_month = []; months = 12 ∷ [] };
  utc_offset_minutes = pos 600;
}

day_that_never_is :
    next_cron_time no_such_day (friday 9 10)
    ≡ at (record { civil = civil_of 2027 11 31; hours = 23; minutes = 30; seconds = 0; millis = 0 })
unfolding next_cron_time next_time next_second next_minute next_hour find_next set_seconds
    set_minutes set_hours set_date set_month set_full_year make_time make_day advance search_months
    find_month find_day day_step get_day days_before_year days_before_month days_in_month is_leap
    shift_minutes next_day retreat prev_day
day_that_never_is = refl
