-- ===== src/Cron/Calendar/Shift.antt =====
-- Valid times under the setters and the time zone shift of
-- packages/core/src/lib/strategies/task-creation/cron/next.ts, and through the structures of
-- internal/time-util.
use tern_scheduler.Prelude.{
  ℕ, ◌+◌, ◌-◌, ◌*◌, ◌/◌, ◌%◌, ◌≤◌, ◌<◌, ◌≡◌, refl, arith, Bool, true, false, ltb, ap, ◌∙◌, ℤ, pos,
  negsuc,
}
use tern_scheduler.Cron.Calendar.{
  Civil, DateTime, TimeStruct, advance, make_time, set_seconds, set_minutes, set_hours, set_date,
  shift_minutes, from_time_struct, to_time_struct,
}
use tern_scheduler.Cron.Calendar.Laws.{
  IsDay, IsTime, advance-IsDay, retreat-IsDay, make_day-IsDay, make_day_lem,
}

pub make_time-IsTime : (c : Civil) (h m s ms : ℕ) → IsDay c → IsTime (make_time c h m s ms)
unfolding make_time
make_time-IsTime c h m s ms v = record {
  on_day = advance-IsDay _ c v;
  hours_in = omega arith;
  minutes_in = omega arith;
  seconds_in = omega arith;
}

pub set_seconds-IsTime : (s : ℕ) (t : DateTime) → IsDay t.civil → IsTime (set_seconds s t)
unfolding set_seconds
set_seconds-IsTime s t v = make_time-IsTime t.civil t.hours t.minutes s t.millis v

pub set_minutes-IsTime : (m : ℕ) (t : DateTime) → IsDay t.civil → IsTime (set_minutes m t)
unfolding set_minutes
set_minutes-IsTime m t v = make_time-IsTime t.civil t.hours m t.seconds t.millis v

pub set_hours-IsTime : (h : ℕ) (t : DateTime) → IsDay t.civil → IsTime (set_hours h t)
unfolding set_hours
set_hours-IsTime h t v = make_time-IsTime t.civil h t.minutes t.seconds t.millis v

pub set_date-IsTime : (d : ℕ) (t : DateTime) → IsTime t → IsTime (set_date d t)
unfolding set_date
set_date-IsTime d t v = record {
  on_day = make_day-IsDay t.civil.year t.civil.month d;
  hours_in = v.hours_in;
  minutes_in = v.minutes_in;
  seconds_in = v.seconds_in;
}

back-IsTime :
    (n : ℕ) (t : DateTime) (b : Bool)
    → ltb n (t.hours * 60 + t.minutes) ≡ b
    → IsTime t
    → IsTime (shift_minutes (negsuc n) t)
unfolding shift_minutes
back-IsTime n t true e v = rw e (record {
  on_day = v.on_day;
  hours_in = omega (arith, v.hours_in, v.minutes_in);
  minutes_in = omega arith;
  seconds_in = v.seconds_in;
})
back-IsTime n t false e v =
    let over : t.hours * 60 + t.minutes ≤ n = ground arith in
    rw e (record {
      on_day = retreat-IsDay _ t.civil v.on_day;
      hours_in = omega (arith, over);
      minutes_in = omega arith;
      seconds_in = v.seconds_in;
    })

pub shift_minutes-IsTime : (z : ℤ) (t : DateTime) → IsTime t → IsTime (shift_minutes z t)
unfolding shift_minutes
shift_minutes-IsTime (pos n) t v = set_minutes-IsTime (t.minutes + n) t v.on_day
shift_minutes-IsTime (negsuc n) t v = back-IsTime n t (ltb n (t.hours * 60 + t.minutes)) refl v

make_time_lem :
    (c : Civil) (h m s ms : ℕ)
    → h < 24
    → m < 60
    → s < 60
    → make_time c h m s ms ≡ record { civil = c; hours = h; minutes = m; seconds = s; millis = ms }
unfolding make_time advance
make_time_lem c h m s ms hb mb sb =
    let s_is : s % 60 ≡ s = omega arith in
    let m_is : (m + s / 60) % 60 ≡ m = omega arith in
    let h_is : (h + (m + s / 60) / 60) % 24 ≡ h = omega arith in
    let days_is : (h + (m + s / 60) / 60) / 24 ≡ 0 = omega arith in
    rw (days_is, h_is, m_is, s_is) refl

-- No offset changes nothing.
pub shift_minutes_zero : (t : DateTime) → IsTime t → shift_minutes (pos 0) t ≡ t
unfolding shift_minutes set_minutes
shift_minutes_zero t v =
    make_time_lem t.civil t.hours (t.minutes + 0) t.seconds t.millis v.hours_in
      (omega (arith, v.minutes_in)) v.seconds_in
    ∙ ap (λ m. record t { minutes = m }) (omega arith)

-- A valid time is the same after its fields are stored in a structure and a date is made of them
-- again.
pub from_time_struct-to_time_struct :
    (t : DateTime) → IsTime t → t.millis < 1000 → from_time_struct (to_time_struct t) ≡ t
unfolding from_time_struct to_time_struct
from_time_struct-to_time_struct t v h =
    let month_is : t.civil.month + 1 - 1 ≡ t.civil.month = omega arith in
    let s_is : t.seconds + t.millis / 1000 ≡ t.seconds = omega arith in
    let ms_is : t.millis % 1000 ≡ t.millis = omega arith in
    let c =
      make_day_lem t.civil.year t.civil.month t.civil.day v.on_day.month_in v.on_day.day_in.0
        v.on_day.day_in.1 in
    rw (month_is, s_is, ms_is, c)
      (make_time_lem t.civil t.hours t.minutes t.seconds t.millis v.hours_in v.minutes_in
        v.seconds_in)

pub from_time_struct-IsTime : (s : TimeStruct) → IsTime (from_time_struct s)
unfolding from_time_struct
from_time_struct-IsTime s =
    make_time-IsTime _ s.hours s.minutes _ _ (make_day-IsDay s.year (s.month - 1) s.day)
