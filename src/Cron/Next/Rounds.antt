-- ===== src/Cron/Next/Rounds.antt =====
-- The rounds of the outer loop of nextCronTime
-- (packages/core/src/lib/strategies/task-creation/cron/next.ts).
use tern_scheduler.Prelude.{
  ℕ, zero, suc, ◌+◌, ◌*◌, ◌≤◌, ◌<◌, ◌≡◌, ◌≢◌, refl, arith, true, ltb, Option, none, some,
  Bool-cases, inl, inr,
}
use tern_scheduler.Cron.Calendar.{DateTime}
use tern_scheduler.Cron.Calendar.Laws.{IsDay}
use tern_scheduler.Cron.Next.{
  CronModel, DaySearch, day_found, month_over, day_stuck, find_day, find_month, increment_month,
  Search, found, invalid, stuck, search_months,
}
use tern_scheduler.Cron.Next.Values.{listed, Within}
use tern_scheduler.Cron.Next.DayLoop.{FoundOnly, find_day-FoundOnly, IsEveryWeekDay, find_day_ends}
use tern_scheduler.Cron.Next.Months.{
  index, IsLaterMonth, FoundMonth, find_month-FoundMonth, next_month-IsLaterMonth,
  same-IsLaterMonth, SearchOnly, later_later, later-SearchOnly, day-IsCronDate,
}

-- The months and the days that a calendar has.
pub record IsCalendarModel (model : CronModel) : Type 0 where
  pub months_in : Within 1 12 model.months
  pub days_in : Within 1 31 model.days_of_month

module _ (model : CronModel) (farthest_year : ℕ) (rest : DateTime → Search) where
  days-SearchOnly :
      (t t1 : DateTime) (r : DaySearch)
      → IsLaterMonth t t1
      → listed (t1.civil.month + 1) model.months ≡ true
      → FoundOnly model t1 r
      → SearchOnly model farthest_year (increment_month t1) (rest (increment_month t1))
      → SearchOnly model farthest_year t (elim r [
        | day_found t2 ↦ found t2
        | month_over ↦ rest (increment_month t1)
        | day_stuck ↦ stuck
      ])
  unfolding SearchOnly FoundOnly
  days-SearchOnly t t1 (day_found t2) h l f s =
      later-SearchOnly model farthest_year t t1 (found t2) h
        (day-IsCronDate model t1 t2 h.on_day l f)
  days-SearchOnly t t1 month_over h l f s =
      later-SearchOnly model farthest_year t (increment_month t1) (rest (increment_month t1))
        (later_later t t1 _ h (next_month-IsLaterMonth t1 h.on_day).0) s
  days-SearchOnly t t1 day_stuck h l f s = tt

  months-SearchOnly :
      (day_fuel : ℕ) (t : DateTime) (o : Option DateTime)
      → IsCalendarModel model
      → FoundMonth model t o
      → ((t1 : DateTime) → IsDay t1.civil → SearchOnly model farthest_year t1 (rest t1))
      → SearchOnly model farthest_year t (elim o [
        | none ↦ invalid
        | some t1 ↦ elim (find_day day_fuel model t1) [
          | day_found t2 ↦ found t2
          | month_over ↦ rest (increment_month t1)
          | day_stuck ↦ stuck
        ]
      ])
  unfolding SearchOnly
  months-SearchOnly day_fuel t none c f s = f
  months-SearchOnly day_fuel t (some t1) c f s =
      days-SearchOnly t t1 (find_day day_fuel model t1) f.0 f.1
        (find_day-FoundOnly day_fuel model t1 f.0.on_day c.days_in)
        (s (increment_month t1) (next_month-IsLaterMonth t1 f.0.on_day).0.on_day)

-- What the search finds is a day that the model lists by month, number and day of the week.
pub search_months-SearchOnly :
    (day_fuel farthest_year fuel : ℕ) (model : CronModel) (t : DateTime)
    → IsDay t.civil
    → IsCalendarModel model
    → SearchOnly model farthest_year t (search_months day_fuel farthest_year fuel model t)
unfolding search_months
search_months-SearchOnly day_fuel farthest_year zero model t v c = unfold SearchOnly in tt
search_months-SearchOnly day_fuel farthest_year (suc fuel) model t v c =
    elim (Bool-cases (ltb t.civil.year farthest_year)) [
      | inr e ↦ rw (e, search_months) (unfold SearchOnly in (same-IsLaterMonth t v, ground arith))
      | inl e ↦
          rw (e, search_months)
            (months-SearchOnly model farthest_year (search_months day_fuel farthest_year fuel model)
              day_fuel t (find_month model t) c (find_month-FoundMonth model t v c.months_in)
              (λ t1 d. search_months-SearchOnly day_fuel farthest_year fuel model t1 d c))
    ]

module _ (model : CronModel) (rest : DateTime → Search) (w : IsEveryWeekDay model) where
  days_end :
      (day_fuel : ℕ) (t1 : DateTime) (r : DaySearch)
      → r ≢ day_stuck
      → rest (increment_month t1) ≢ stuck
      → elim r [
        | day_found t2 ↦ found t2
        | month_over ↦ rest (increment_month t1)
        | day_stuck ↦ stuck
      ]
        ≢ stuck
  days_end day_fuel t1 (day_found t2) h s = λ e. cc
  days_end day_fuel t1 month_over h s = s
  days_end day_fuel t1 day_stuck h s = λ e. h refl

  months_end :
      (day_fuel : ℕ) (t : DateTime) (o : Option DateTime)
      → IsCalendarModel model
      → FoundMonth model t o
      → ((t1 : DateTime) → IsDay t1.civil → index t < index t1 → rest t1 ≢ stuck)
      → elim o [
        | none ↦ invalid
        | some t1 ↦ elim (find_day (suc day_fuel) model t1) [
          | day_found t2 ↦ found t2
          | month_over ↦ rest (increment_month t1)
          | day_stuck ↦ stuck
        ]
      ]
        ≢ stuck
  months_end day_fuel t none c f s = λ e. cc
  months_end day_fuel t (some t1) c f s =
      let m = next_month-IsLaterMonth t1 f.0.on_day in
      days_end day_fuel t1 (find_day (suc day_fuel) model t1)
        (find_day_ends day_fuel model t1 w f.0.on_day c.days_in)
        (s (increment_month t1) m.0.on_day (omega (arith, f.0.later, m.1)))

-- A month of fuel for each month up to the farthest year is enough.
pub search_months_ends :
    (day_fuel farthest_year fuel : ℕ) (model : CronModel) (t : DateTime)
    → IsDay t.civil
    → IsCalendarModel model
    → IsEveryWeekDay model
    → farthest_year * 12 < fuel + index t
    → 1 ≤ fuel
    → search_months (suc day_fuel) farthest_year fuel model t ≢ stuck
unfolding search_months
search_months_ends day_fuel farthest_year zero model t v c w h p = absurd (omega arith)
search_months_ends day_fuel farthest_year (suc fuel) model t v c w h p =
    elim (Bool-cases (ltb t.civil.year farthest_year)) [
      | inr e ↦ rw (e, search_months) (λ x. cc)
      | inl e ↦
          rw (e, search_months)
            (months_end model (search_months (suc day_fuel) farthest_year fuel model) w day_fuel t
              (find_month model t) c (find_month-FoundMonth model t v c.months_in)
              (λ t1 d l.
                search_months_ends day_fuel farthest_year fuel model t1 d c w (omega (arith, h, l))
                  (ground (arith, e, h, v.month_in))))
    ]
