-- ===== src/Cron/Next/DayLoop.antt =====
-- The inner loop of nextCronTime (packages/core/src/lib/strategies/task-creation/cron/next.ts): the
-- days of one month.
use tern_scheduler.Prelude.{ℕ, zero, suc, ◌≤◌, ◌<◌, ◌≡◌, ◌≢◌, refl, arith, true, false, some, ◌∙◌}
use tern_scheduler.Cron.Calendar.{Civil, DateTime, days_in_month, get_day}
use tern_scheduler.Cron.Calendar.Laws.{IsDay}
use tern_scheduler.Cron.Next.{
  CronModel, find_next, DayStep, matched, increment, same_month, is_week_match, day_step, DaySearch,
  day_found, month_over, day_stuck, find_day,
}
use tern_scheduler.Cron.Next.Values.{
  listed, IsIncreasing, Within, find_next_lem, find_next_again, find_next_listed,
}
use tern_scheduler.Cron.Next.Days.{
  on_day, IsListedDay, StepOutcome, self_eq, day_step_fits, day_step-StepOutcome,
}

find_day_again :
    (model : CronModel) (t t' : DateTime) (fuel : ℕ)
    → day_step model t ≡ same_month t'
    → find_day (suc fuel) model t ≡ find_day fuel model t'
unfolding find_day
find_day_again model t t' fuel e = rw (e, find_day)

find_day_fixed :
    (model : CronModel) (t : DateTime)
    → day_step model t ≡ same_month t
    → (fuel : ℕ) → find_day fuel model t ≡ day_stuck
unfolding find_day
find_day_fixed model t e zero = refl
find_day_fixed model t e (suc fuel) =
    find_day_again model t t fuel e ∙ find_day_fixed model t e fuel

-- A listed day, the first from a valid date on, that is in the month and falls on a day of the
-- week that is not listed is met again in every round: the loop never ends.
pub find_day-endless :
    (model : CronModel) (t : DateTime) (n : ℕ)
    → IsDay t.civil
    → find_next t.civil.day model.days_of_month ≡ some n
    → n ≤ days_in_month t.civil.year t.civil.month
    → is_week_match model (on_day n t) ≡ false
    → (fuel : ℕ) → find_day fuel model t ≡ day_stuck
unfolding find_day
find_day-endless model t n v e fits off zero = refl
find_day-endless model t n v e fits off (suc fuel) =
    let l = find_next_lem t.civil.day n model.days_of_month e in
    let there : IsDay (on_day n t).civil = omega (arith, v.month_in, v.day_in, l.0) in
    find_day_again model t (on_day n t) fuel (day_step_fits model t v n e fits ∙ rw off)
    ∙ find_day_fixed model (on_day n t)
        (day_step_fits model (on_day n t) there n
            (find_next_again t.civil.day n model.days_of_month e) fits
          ∙ rw off)
        fuel

-- A day that the model lists, in its month and its week.
pub record IsCronDay (model : CronModel) (t t' : DateTime) : Type 0 where
  pub number : ℕ
  pub same_time : t' ≡ on_day number t
  pub is_listed : IsListedDay model t number
  pub on_week_day : is_week_match model t' ≡ true

unfoldable pub FoundOnly : CronModel → DateTime → DaySearch → Type 0
FoundOnly model t (day_found t') = IsCronDay model t t'
FoundOnly model t month_over = Unit
FoundOnly model t day_stuck = Unit

later_day :
    (model : CronModel) (t : DateTime) (n : ℕ) (r : DaySearch)
    → t.civil.day ≤ n
    → FoundOnly model (on_day n t) r
    → FoundOnly model t r
unfolding FoundOnly
later_day model t n month_over h f = tt
later_day model t n day_stuck h f = tt
later_day model t n (day_found t') h f = record {
  number = f.number;
  same_time = f.same_time;
  is_listed = record {
    on_list = f.is_listed.on_list;
    after = omega (arith, f.is_listed.after);
    exists = f.is_listed.exists;
  };
  on_week_day = f.on_week_day;
}

step-FoundOnly :
    (model : CronModel) (t : DateTime) (rest : DateTime → DaySearch) (r : DayStep)
    → ((n : ℕ) → IsListedDay model t n → FoundOnly model (on_day n t) (rest (on_day n t)))
    → StepOutcome model t r
    → FoundOnly model t
        (elim r [ matched t' ↦ day_found t' | increment ↦ month_over | same_month t' ↦ rest t' ])
unfolding FoundOnly
step-FoundOnly model t rest (matched t') ih (n, e, l, m) = record {
  number = n;
  same_time = e;
  is_listed = l;
  on_week_day = m;
}
step-FoundOnly model t rest increment ih o = tt
step-FoundOnly model t rest (same_month t') ih (n, e, l, m) =
    rw e (later_day model t n (rest (on_day n t)) l.after (ih n l))

-- What the loop finds is a day of the month, not before the start, that the model lists and that
-- falls on a day of the week that it lists.
pub find_day-FoundOnly :
    (fuel : ℕ) (model : CronModel) (t : DateTime)
    → IsDay t.civil
    → Within 1 31 model.days_of_month
    → FoundOnly model t (find_day fuel model t)
unfolding find_day
find_day-FoundOnly zero model t v days = unfold FoundOnly in tt
find_day-FoundOnly (suc fuel) model t v days =
    step-FoundOnly model t (find_day fuel model) (day_step model t)
      (λ n l.
        find_day-FoundOnly fuel model (on_day n t)
          (omega (arith, v.month_in, l.exists, l.after, v.day_in)) days)
      (day_step-StepOutcome model t v days)

-- Every day of the week is on the list.
pub record IsEveryWeekDay (model : CronModel) : Type 0 where
  pub increasing : IsIncreasing model.days_of_week
  pub complete : (d : ℕ) → d < 7 → listed d model.days_of_week ≡ true

get_day-lt : (c : Civil) → get_day c < 7
unfolding get_day
get_day-lt c = omega arith

week_matches :
    (model : CronModel) (t : DateTime) → IsEveryWeekDay model → is_week_match model t ≡ true
week_matches model t w =
    let e =
      find_next_listed (get_day t.civil) model.days_of_week w.increasing
        (w.complete (get_day t.civil) (get_day-lt t.civil)) in
    rw (e, is_week_match) (self_eq (get_day t.civil))

step_ends :
    (model : CronModel) (t : DateTime) (rest : DateTime → DaySearch) (r : DayStep)
    → IsEveryWeekDay model
    → StepOutcome model t r
    → elim r [ matched t' ↦ day_found t' | increment ↦ month_over | same_month t' ↦ rest t' ]
      ≢ day_stuck
step_ends model t rest (matched t') w o = λ e. cc
step_ends model t rest increment w o = λ e. cc
step_ends model t rest (same_month t') w (n, e, l, m) = λ h. cc (week_matches model t' w)

-- With every day of the week on the list the loop ends in its first round.
pub find_day_ends :
    (fuel : ℕ) (model : CronModel) (t : DateTime)
    → IsEveryWeekDay model
    → IsDay t.civil
    → Within 1 31 model.days_of_month
    → find_day (suc fuel) model t ≢ day_stuck
unfolding find_day
find_day_ends fuel model t w v days =
    step_ends model t (find_day fuel model) (day_step model t) w
      (day_step-StepOutcome model t v days)
