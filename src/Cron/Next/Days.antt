-- ===== src/Cron/Next/Days.antt =====
-- One round of the inner loop of nextCronTime
-- (packages/core/src/lib/strategies/task-creation/cron/next.ts): a day of a month.
use tern_scheduler.Prelude.{
  ℕ, ◌≤◌, ◌<◌, ◌≡◌, refl, arith, Bool, true, false, leb, ◌==◌, if◌then◌else◌, none, some,
  Bool-cases, Option-cases, inl, inr, ap, ◌∙◌,
}
use tern_scheduler.Cron.Calendar.{DateTime, civil_of, days_in_month, set_date}
use tern_scheduler.Cron.Calendar.Laws.{IsDay, make_day_lem, make_day-beyond}
use tern_scheduler.Cron.Next.{
  CronModel, find_next, DayStep, matched, increment, same_month, is_week_match, try_day, day_step,
}
use tern_scheduler.Cron.Next.Values.{listed, Within, listed-Within, find_next_lem}

-- The same month and time on another day.
abbrev pub on_day : ℕ → DateTime → DateTime
on_day n t = record t { civil = civil_of t.civil.year t.civil.month n }

-- A day of the month of `t`, not before its day, that the model lists.
pub record IsListedDay (model : CronModel) (t : DateTime) (n : ℕ) : Type 0 where
  pub on_list : listed n model.days_of_month ≡ true
  pub after : t.civil.day ≤ n
  pub exists : n ≤ days_in_month t.civil.year t.civil.month

-- What one round of the loop has found.
abbrev pub StepOutcome : CronModel → DateTime → DayStep → Type 0
StepOutcome model t (matched t') =
    (n : ℕ) × (t' ≡ on_day n t) × IsListedDay model t n × (is_week_match model t' ≡ true)
StepOutcome model t (same_month t') =
    (n : ℕ) × (t' ≡ on_day n t) × IsListedDay model t n × (is_week_match model t' ≡ false)
StepOutcome model t increment = Unit

set_date_lem :
    (n : ℕ) (t : DateTime)
    → IsDay t.civil
    → 1 ≤ n
    → n ≤ days_in_month t.civil.year t.civil.month
    → set_date n t ≡ on_day n t
unfolding set_date
set_date_lem n t v lo hi = rw (make_day_lem t.civil.year t.civil.month n v.month_in lo hi)

pub self_eq : (m : ℕ) → (m == m) ≡ true
self_eq m = ground arith

module _ (model : CronModel) (t : DateTime) where
  pub day_step-none :
      find_next t.civil.day model.days_of_month ≡ none → day_step model t ≡ increment
  unfolding day_step
  day_step-none e = rw (e, day_step)

  day_step-some :
      (n : ℕ)
      → find_next t.civil.day model.days_of_month ≡ some n
      → day_step model t ≡ try_day model t (set_date n t)
  unfolding day_step
  day_step-some n e = rw (e, day_step)

  on_day-StepOutcome :
      (n : ℕ) (b : Bool)
      → IsListedDay model t n
      → is_week_match model (on_day n t) ≡ b
      → StepOutcome model t (if b then matched (on_day n t) else same_month (on_day n t))
  on_day-StepOutcome n true l e = (n, refl, l, e)
  on_day-StepOutcome n false l e = (n, refl, l, e)

  module _ (v : IsDay t.civil) where
    pub day_step_fits :
        (n : ℕ)
        → find_next t.civil.day model.days_of_month ≡ some n
        → n ≤ days_in_month t.civil.year t.civil.month
        → day_step model t ≡ (
            if is_week_match model (on_day n t)
            then matched (on_day n t)
            else same_month (on_day n t))
    day_step_fits n e fits =
        day_step-some n e
        ∙ ap (try_day model t) (
            set_date_lem n t v
              (omega (arith, v.day_in, find_next_lem t.civil.day n model.days_of_month e)) fits)
        ∙ rw (self_eq t.civil.month)

    pub day_step_over :
        (n : ℕ)
        → find_next t.civil.day model.days_of_month ≡ some n
        → days_in_month t.civil.year t.civil.month < n
        → n ≤ 31
        → day_step model t ≡ increment
    unfolding set_date
    day_step_over n e over hi =
        day_step-some n e
        ∙ ground (arith, make_day-beyond t.civil.year t.civil.month n v.month_in over hi)

    -- A round stays in the month, on a day that the model lists, or it leaves the month.
    pub day_step-StepOutcome :
        Within 1 31 model.days_of_month → StepOutcome model t (day_step model t)
    day_step-StepOutcome days = elim (Option-cases (find_next t.civil.day model.days_of_month)) [
      | inl e ↦ rw (day_step-none e) tt
      | inr (n, e) ↦
          let l = find_next_lem t.civil.day n model.days_of_month e in
          elim (Bool-cases (leb n (days_in_month t.civil.year t.civil.month))) [
            | inl fits ↦ rw (day_step_fits n e (ground (arith, fits))) (
                on_day-StepOutcome n _
                  (record { on_list = l.1; after = l.0; exists = ground (arith, fits) }) refl)
            | inr over ↦
                rw
                  (day_step_over n e (ground (arith, over))
                    (listed-Within 1 31 n model.days_of_month days l.1).1)
                  tt
          ]
    ]
