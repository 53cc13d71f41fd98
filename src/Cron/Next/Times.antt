-- ===== src/Cron/Next/Times.antt =====
-- The time of the day that nextCronTime starts its search from
-- (packages/core/src/lib/strategies/task-creation/cron/next.ts).
use tern_scheduler.Prelude.{
  ℕ, ◌+◌, ◌≤◌, ◌≡◌, arith, true, Option, none, some, List, [], Option-cases, List-cases, ◌⊎◌, inl,
  inr, ◌∙◌,
}
use tern_scheduler.Cron.Calendar.{
  DateTime, make_time, set_seconds, set_minutes, set_hours, set_date,
}
use tern_scheduler.Cron.Calendar.Laws.{IsDay, IsTime}
use tern_scheduler.Cron.Calendar.Shift.{
  set_seconds-IsTime, set_minutes-IsTime, set_hours-IsTime, set_date-IsTime,
}
use tern_scheduler.Cron.Next.{
  CronModel, find_next, or_wrap, next_second, next_minute, next_hour, next_time, ◌>>=◌,
}
use tern_scheduler.Cron.Next.Values.{listed, head_listed, Within, listed-Within, find_next_lem}

-- The times of day that a clock has.
pub record IsClockModel (model : CronModel) : Type 0 where
  pub seconds_in : Within 0 59 model.seconds
  pub minutes_in : Within 0 59 model.minutes
  pub hours_in : Within 0 23 model.hours

-- The three setters keep what a valid time has below them.
set_seconds_lem : (s : ℕ) (t : DateTime) → s ≤ 59 → (set_seconds s t).seconds ≡ s
unfolding set_seconds make_time
set_seconds_lem s t h = omega arith

set_minutes_lem :
    (m : ℕ) (t : DateTime)
    → m ≤ 59
    → IsTime t
    → ((set_minutes m t).minutes ≡ m) × ((set_minutes m t).seconds ≡ t.seconds)
unfolding set_minutes make_time
set_minutes_lem m t h v = (omega (arith, v.seconds_in), omega (arith, v.seconds_in))

set_hours_lem :
    (h : ℕ) (t : DateTime)
    → h ≤ 23
    → IsTime t
    → ((set_hours h t).hours ≡ h)
      × ((set_hours h t).minutes ≡ t.minutes)
      × ((set_hours h t).seconds ≡ t.seconds)
unfolding set_hours make_time
set_hours_lem h t b v = (
  omega (arith, v.seconds_in, v.minutes_in),
  omega (arith, v.seconds_in, v.minutes_in),
  omega (arith, v.seconds_in),
)

-- Going a minute or an hour on.
next_of_minutes : (n : ℕ) (t : DateTime) → IsTime t → (set_minutes n t).seconds ≡ t.seconds
unfolding set_minutes make_time
next_of_minutes n t v = omega (arith, v.seconds_in)

next_of_hours :
    (n : ℕ) (t : DateTime)
    → IsTime t
    → ((set_hours n t).minutes ≡ t.minutes) × ((set_hours n t).seconds ≡ t.seconds)
unfolding set_hours make_time
next_of_hours n t v = (omega (arith, v.seconds_in, v.minutes_in), omega (arith, v.seconds_in))

-- What each step gives: a valid time, with its own field on the model's list and the fields below
-- it as they were; or nothing, when its list is empty.
abbrev pub SecondStep : CronModel → DateTime → Option DateTime → Type 0
SecondStep model t none = model.seconds ≡ []
SecondStep model t (some t') = IsTime t' × (listed t'.seconds model.seconds ≡ true)

abbrev pub MinuteStep : CronModel → DateTime → Option DateTime → Type 0
MinuteStep model t none = model.minutes ≡ []
MinuteStep model t (some t') =
    IsTime t' × (listed t'.minutes model.minutes ≡ true) × (t'.seconds ≡ t.seconds)

abbrev pub HourStep : CronModel → DateTime → Option DateTime → Type 0
HourStep model t none = model.hours ≡ []
HourStep model t (some t') =
    IsTime t'
    × (listed t'.hours model.hours ≡ true)
    × (t'.minutes ≡ t.minutes)
    × (t'.seconds ≡ t.seconds)

-- A rule for `findNext` with its two callbacks.
pub or_wrap_rule :
    (P : Option DateTime → Type 0) (value hi : ℕ) (range : List ℕ) (found wrapped : ℕ → DateTime)
    → Within 0 hi range
    → (range ≡ [] → P none)
    → ((n : ℕ) → listed n range ≡ true → n ≤ hi → value ≤ n → P (some (found n)))
    → ((n : ℕ) → listed n range ≡ true → n ≤ hi → P (some (wrapped n)))
    → P (or_wrap (find_next value range) range found wrapped)
or_wrap_rule P value hi range found wrapped w e f g = elim (Option-cases (find_next value range)) [
  | inr (n, h) ↦
      let (from, l) = find_next_lem value n range h in
      rw h (f n l (listed-Within 0 hi n range w l).1 from)
  | inl h ↦ rw h (elim (List-cases range) [
    | inl none_listed ↦ rw none_listed (e none_listed)
    | inr (x, xs, c) ↦
        let l : listed x range ≡ true = rw c (head_listed x xs) in
        rw c (g x l (listed-Within 0 hi x range w l).1)
  ])
]

module _ (model : CronModel) (c : IsClockModel model) (t : DateTime) where
  next_second-SecondStep : IsDay t.civil → SecondStep model t (next_second model t)
  unfolding next_second
  next_second-SecondStep v =
      or_wrap_rule (SecondStep model t) t.seconds 59 model.seconds _ _ c.seconds_in (λ e. e)
        (λ n l h p. (set_seconds-IsTime n t v, rw (set_seconds_lem n t h) l))
        (λ n l h.
          let w = set_seconds-IsTime n t v in
          (
            set_minutes-IsTime ((set_seconds n t).minutes + 1) (set_seconds n t) w.on_day,
            rw
                (
                  next_of_minutes ((set_seconds n t).minutes + 1) (set_seconds n t) w,
                  set_seconds_lem n t h,
                )
                l,
          ))

  next_minute-MinuteStep : IsTime t → MinuteStep model t (next_minute model t)
  unfolding next_minute
  next_minute-MinuteStep v =
      or_wrap_rule (MinuteStep model t) t.minutes 59 model.minutes _ _ c.minutes_in (λ e. e)
        (λ n l h p.
          let k = set_minutes_lem n t h v in (set_minutes-IsTime n t v.on_day, rw k.0 l, k.1))
        (λ n l h.
          let k = set_minutes_lem n t h v in
          let w = set_minutes-IsTime n t v.on_day in
          let u = next_of_hours ((set_minutes n t).hours + 1) (set_minutes n t) w in
          (
            set_hours-IsTime ((set_minutes n t).hours + 1) (set_minutes n t) w.on_day,
            rw (u.0, k.0) l,
            u.1 ∙ k.1,
          ))

  next_hour-HourStep : IsTime t → HourStep model t (next_hour model t)
  unfolding next_hour
  next_hour-HourStep v =
      or_wrap_rule (HourStep model t) t.hours 23 model.hours _ _ c.hours_in (λ e. e)
        (λ n l h p.
          let k = set_hours_lem n t h v in (set_hours-IsTime n t v.on_day, rw k.0 l, k.1, k.2))
        (λ n l h.
          let k = set_hours_lem n t h v in
          unfold set_date in
          (set_date-IsTime _ (set_hours n t) (set_hours-IsTime n t v.on_day), rw k.0 l, k.1, k.2))

-- A valid time whose seconds, minutes and hours are all on the lists.
pub record IsListedTime (model : CronModel) (t : DateTime) : Type 0 where
  pub is_time : IsTime t
  pub second_listed : listed t.seconds model.seconds ≡ true
  pub minute_listed : listed t.minutes model.minutes ≡ true
  pub hour_listed : listed t.hours model.hours ≡ true

abbrev pub TimeStep : CronModel → Option DateTime → Type 0
TimeStep model none = (model.seconds ≡ []) ⊎ (model.minutes ≡ []) ⊎ (model.hours ≡ [])
TimeStep model (some t) = IsListedTime model t

module _ (model : CronModel) (c : IsClockModel model) where
  hours-TimeStep :
      (t : DateTime) (o : Option DateTime)
      → HourStep model t o
      → listed t.seconds model.seconds ≡ true
      → listed t.minutes model.minutes ≡ true
      → TimeStep model o
  hours-TimeStep t none h s m = inr (inr h)
  hours-TimeStep t (some t') (v, l, m', s') s m = record {
    is_time = v;
    second_listed = rw s' s;
    minute_listed = rw m' m;
    hour_listed = l;
  }

  minutes-TimeStep :
      (t : DateTime) (o : Option DateTime)
      → MinuteStep model t o
      → listed t.seconds model.seconds ≡ true
      → TimeStep model (o >>= next_hour model)
  minutes-TimeStep t none h s = inr (inl h)
  minutes-TimeStep t (some t') (v, l, s') s =
      hours-TimeStep t' (next_hour model t') (next_hour-HourStep model c t' v) (rw s' s) l

  seconds-TimeStep :
      (t : DateTime) (o : Option DateTime)
      → SecondStep model t o
      → TimeStep model (o >>= λ t1. next_minute model t1 >>= next_hour model)
  seconds-TimeStep t none h = inl h
  seconds-TimeStep t (some t') (v, l) =
      minutes-TimeStep t' (next_minute model t') (next_minute-MinuteStep model c t' v) l

  -- The search starts from a valid time of a listed hour, minute and second, and has no such time
  -- only when one of the three lists is empty.
  pub next_time-TimeStep : (t : DateTime) → IsDay t.civil → TimeStep model (next_time model t)
  unfolding next_time
  next_time-TimeStep t v =
      seconds-TimeStep t (next_second model t) (next_second-SecondStep model c t v)
