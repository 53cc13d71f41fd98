-- ===== src/Cron/Next/Fires.antt =====
-- nextCronTime of packages/core/src/lib/strategies/task-creation/cron/next.ts as a whole: when the
-- schedule fires.
use tern_scheduler.Prelude.{
  ℕ, ◌+◌, ◌≤◌, ◌<◌, ◌≡◌, refl, arith, Bool, true, false, leb, Option, none, some, [], Bool-cases,
  ◌⊎◌, inl, inr, ◌≢◌,
}
use tern_scheduler.Cron.Calendar.{DateTime, TimeStruct, shift_minutes, earlier, from_time_struct}
use tern_scheduler.Cron.Calendar.Laws.{IsTime}
use tern_scheduler.Cron.Calendar.Shift.{
  set_seconds-IsTime, shift_minutes-IsTime, from_time_struct-IsTime,
}
use tern_scheduler.Cron.Next.{
  CronModel, ScheduleCronModel, maximum_year_in_future, is_week_match, next_time, Search, found,
  exhausted, invalid, stuck, day_rounds, month_rounds, CronTime, at, never, invalid_date, endless,
  negate_ℤ, is_over, start_from, next_full_second, to_utc, conclude, search_from, next_cron_time,
}
use tern_scheduler.Cron.Next.Values.{listed}
use tern_scheduler.Cron.Next.Months.{IsLaterMonth, IsCronDate, SearchOnly}
use tern_scheduler.Cron.Calendar.Order.{rank}
use tern_scheduler.Cron.Next.Later.{NotBefore, next_time-NotBefore}
use tern_scheduler.Cron.Next.Rounds.{IsCalendarModel, search_months-SearchOnly, search_months_ends}
use tern_scheduler.Cron.Next.DayLoop.{IsEveryWeekDay}
use tern_scheduler.Cron.Next.Times.{IsClockModel, IsListedTime, TimeStep, next_time-TimeStep}

-- All six lists have the time.
pub record IsFireTime (model : CronModel) (t : DateTime) : Type 0 where
  pub is_time : IsTime t
  pub second_listed : listed t.seconds model.seconds ≡ true
  pub minute_listed : listed t.minutes model.minutes ≡ true
  pub hour_listed : listed t.hours model.hours ≡ true
  pub day_listed : listed t.civil.day model.days_of_month ≡ true
  pub month_listed : listed (t.civil.month + 1) model.months ≡ true
  pub week_day_listed : is_week_match model t ≡ true

-- A schedule's answer: a time before `endBy` and the farthest year, which in the clock of the
-- search (UTC plus the schedule's offset) is a time of the model, or the end of an unsuccessful
-- search.
pub record IsAnswer (model : ScheduleCronModel) (farthest_year from : ℕ) (r t : DateTime)
    : Type 0 where
  pub shifted : r ≡ shift_minutes (negate_ℤ model.utc_offset_minutes) t
  pub is_time : IsTime t
  pub not_before : from ≤ rank t
  pub fires_or_far : IsFireTime model.cron t ⊎ (farthest_year ≤ t.civil.year)
  pub in_time : is_over model.end_by r ≡ false
  pub near : r.civil.year < farthest_year

-- A time of the search's clock that is no answer: it is a time of the model, or the end of an
-- unsuccessful search, and in UTC it is past `endBy` or not before the farthest year.
pub record IsTooLate (model : ScheduleCronModel) (farthest_year from : ℕ) (t : DateTime)
    : Type 0 where
  pub is_time : IsTime t
  pub not_before : from ≤ rank t
  pub fires_or_far : IsFireTime model.cron t ⊎ (farthest_year ≤ t.civil.year)
  pub too_late :
      (is_over model.end_by (shift_minutes (negate_ℤ model.utc_offset_minutes) t) ≡ true)
      ⊎ (farthest_year ≤ (shift_minutes (negate_ℤ model.utc_offset_minutes) t).civil.year)

-- What each answer says; `over` tells whether now is past `endBy`.
unfoldable pub AnswerOnly : ScheduleCronModel → ℕ → ℕ → Bool → CronTime → Type 0
AnswerOnly model farthest_year from over (at r) =
    (t : DateTime) × IsAnswer model farthest_year from r t
AnswerOnly model farthest_year from over never =
    (over ≡ true) ⊎ ((t : DateTime) × IsTooLate model farthest_year from t)
AnswerOnly model farthest_year from over invalid_date =
    (model.cron.seconds ≡ [])
    ⊎ (model.cron.minutes ≡ [])
    ⊎ (model.cron.hours ≡ [])
    ⊎ (model.cron.months ≡ [])
AnswerOnly model farthest_year from over endless = ¬ IsEveryWeekDay model.cron

-- The lists hold what a clock and a calendar have.
pub record IsInRange (model : CronModel) : Type 0 where
  pub clock : IsClockModel model
  pub calendar : IsCalendarModel model

later-IsTime : (t t' : DateTime) → IsTime t → IsLaterMonth t t' → IsTime t'
later-IsTime t t' v h = record {
  on_day = h.on_day;
  hours_in = rw h.same_hours v.hours_in;
  minutes_in = rw h.same_minutes v.minutes_in;
  seconds_in = rw h.same_seconds v.seconds_in;
}

date-IsFireTime :
    (model : CronModel) (t t' : DateTime)
    → IsListedTime model t
    → IsCronDate model t t'
    → IsFireTime model t'
date-IsFireTime model t t' l d = record {
  is_time = later-IsTime t t' l.is_time d.is_later;
  second_listed = rw d.is_later.same_seconds l.second_listed;
  minute_listed = rw d.is_later.same_minutes l.minute_listed;
  hour_listed = rw d.is_later.same_hours l.hour_listed;
  day_listed = d.day_listed;
  month_listed = d.month_listed;
  week_day_listed = d.week_day_listed;
}

to_utc-AnswerOnly :
    (model : ScheduleCronModel) (farthest_year from : ℕ) (begun : Bool) (t : DateTime)
    (over far : Bool)
    → IsTime t
    → from ≤ rank t
    → IsFireTime model.cron t ⊎ (farthest_year ≤ t.civil.year)
    → is_over model.end_by (shift_minutes (negate_ℤ model.utc_offset_minutes) t) ≡ over
    → leb farthest_year (shift_minutes (negate_ℤ model.utc_offset_minutes) t).civil.year ≡ far
    → AnswerOnly model farthest_year from begun (to_utc model farthest_year t)
unfolding AnswerOnly
to_utc-AnswerOnly model farthest_year from begun t true far v l f e g =
    rw e (inr (t, record { is_time = v; not_before = l; fires_or_far = f; too_late = inl e }))
to_utc-AnswerOnly model farthest_year from begun t false true v l f e g =
    rw (e, g)
      (inr (
        t,
        record { is_time = v; not_before = l; fires_or_far = f; too_late = inr (ground arith) },
      ))
to_utc-AnswerOnly model farthest_year from begun t false false v l f e g =
    rw (e, g)
      (
        t,
        record {
          shifted = refl;
          is_time = v;
          not_before = l;
          fires_or_far = f;
          in_time = e;
          near = ground arith;
        },
      )

later_rank : (from : ℕ) (t t' : DateTime) → from ≤ rank t → IsLaterMonth t t' → from ≤ rank t'
later_rank from t t' h l =
    omega (arith, h, l.later_day, l.same_hours, l.same_minutes, l.same_seconds)

abbrev LaterThan : ℕ → Option DateTime → Type 0
LaterThan from none = Unit
LaterThan from (some t) = from ≤ rank t

conclude-AnswerOnly :
    (model : ScheduleCronModel) (farthest_year from : ℕ) (over : Bool) (t : DateTime) (r : Search)
    → from ≤ rank t
    → IsListedTime model.cron t
    → SearchOnly model.cron farthest_year t r
    → (IsEveryWeekDay model.cron → r ≢ stuck)
    → AnswerOnly model farthest_year from over (conclude model farthest_year r)
unfolding SearchOnly
conclude-AnswerOnly model farthest_year from over t (found t') h l s ends =
    let f = date-IsFireTime model.cron t t' l s in
    to_utc-AnswerOnly model farthest_year from over t' _ _ f.is_time
      (later_rank from t t' h s.is_later) (inl f) refl refl
conclude-AnswerOnly model farthest_year from over t (exhausted t') h l s ends =
    to_utc-AnswerOnly model farthest_year from over t' _ _ (later-IsTime t t' l.is_time s.0)
      (later_rank from t t' h s.0) (inr s.1) refl refl
conclude-AnswerOnly model farthest_year from over t invalid h l s ends =
    unfold AnswerOnly in inr (inr (inr s))
conclude-AnswerOnly model farthest_year from over t stuck h l s ends =
    unfold AnswerOnly in λ w. ends w refl

empty-AnswerOnly :
    (model : ScheduleCronModel) (farthest_year from : ℕ) (over : Bool)
    → (model.cron.seconds ≡ []) ⊎ (model.cron.minutes ≡ []) ⊎ (model.cron.hours ≡ [])
    → AnswerOnly model farthest_year from over invalid_date
unfolding AnswerOnly
empty-AnswerOnly model farthest_year from over (inl e) = inl e
empty-AnswerOnly model farthest_year from over (inr (inl e)) = inr (inl e)
empty-AnswerOnly model farthest_year from over (inr (inr e)) = inr (inr (inl e))

search_from-AnswerOnly :
    (model : ScheduleCronModel) (farthest_year from : ℕ) (over : Bool) (o : Option DateTime)
    → LaterThan from o
    → IsInRange model.cron
    → TimeStep model.cron o
    → AnswerOnly model farthest_year from over (search_from model farthest_year o)
search_from-AnswerOnly model farthest_year from over none h c s =
    empty-AnswerOnly model farthest_year from over s
search_from-AnswerOnly model farthest_year from over (some t) h c s =
    conclude-AnswerOnly model farthest_year from over t _ h s
      (search_months-SearchOnly day_rounds farthest_year (month_rounds farthest_year) model.cron t
        s.is_time.on_day c.calendar)
      (λ w.
        search_months_ends 1 farthest_year (month_rounds farthest_year) model.cron t
          s.is_time.on_day c.calendar w (omega arith) (omega arith))

pub start_from-IsTime :
    (start : Option TimeStruct) (now : DateTime) → IsTime now → IsTime (start_from start now)
start_from-IsTime none now v = v
start_from-IsTime (some s) now v = elim (Bool-cases (earlier now (from_time_struct s))) [
  | inl e ↦ rw e (from_time_struct-IsTime s)
  | inr e ↦ rw e v
]

pub next_full_second-IsTime : (t : DateTime) → IsTime t → IsTime (next_full_second t)
next_full_second-IsTime t v =
    let w = set_seconds-IsTime (t.seconds + 1) t v.on_day in
    record {
      on_day = w.on_day;
      hours_in = w.hours_in;
      minutes_in = w.minutes_in;
      seconds_in = w.seconds_in;
    }

-- Where the search for a time starts: the clock that nextCronTime searches in is UTC plus the
-- schedule's offset.
abbrev pub start : ScheduleCronModel → DateTime → DateTime
start model now =
    shift_minutes model.utc_offset_minutes (next_full_second (start_from model.start_after now))

pub start-IsTime :
    (model : ScheduleCronModel) (now : DateTime) → IsTime now → IsTime (start model now)
start-IsTime model now v =
    shift_minutes-IsTime model.utc_offset_minutes _
      (next_full_second-IsTime _ (start_from-IsTime model.start_after now v))

pub next_cron_time_over :
    (model : ScheduleCronModel) (now : DateTime)
    → is_over model.end_by now ≡ true
    → next_cron_time model now ≡ never
unfolding next_cron_time
next_cron_time_over model now e = rw (e, next_cron_time) refl

pub next_cron_time_searches :
    (model : ScheduleCronModel) (now : DateTime)
    → is_over model.end_by now ≡ false
    → next_cron_time model now
      ≡ search_from model
          (now.civil.year + maximum_year_in_future)
          (next_time model.cron (start model now))
unfolding next_cron_time
next_cron_time_searches model now e = rw (e, next_cron_time) refl

NotBefore-LaterThan : (t : DateTime) (o : Option DateTime) → NotBefore t o → LaterThan (rank t) o
NotBefore-LaterThan t none n = tt
NotBefore-LaterThan t (some u) n = n.1

pub next_cron_time-AnswerOnly :
    (model : ScheduleCronModel) (now : DateTime)
    → IsTime now
    → IsInRange model.cron
    → AnswerOnly model
        (now.civil.year + maximum_year_in_future)
        (rank (start model now))
        (is_over model.end_by now)
        (next_cron_time model now)
next_cron_time-AnswerOnly model now v c = elim (Bool-cases (is_over model.end_by now)) [
  | inl e ↦ rw (next_cron_time_over model now e) (unfold AnswerOnly in inl e)
  | inr e ↦
      let begun = start-IsTime model now v in
      rw (next_cron_time_searches model now e) (
        search_from-AnswerOnly model _ (rank (start model now)) _
          (next_time model.cron (start model now))
          (NotBefore-LaterThan (start model now) _
            (next_time-NotBefore model.cron c.clock (start model now) begun))
          c (next_time-TimeStep model.cron c.clock (start model now) begun.on_day))
]
