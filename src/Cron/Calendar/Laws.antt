-- ===== src/Cron/Calendar/Laws.antt =====
-- The days and times of packages/core/src/lib/strategies/task-creation/cron/next.ts that exist,
-- and the setters of a Date object on them.
use tern_scheduler.Prelude.{
  ℕ, zero, suc, ◌+◌, ◌-◌, ◌/◌, ◌%◌, ◌≤◌, ◌<◌, ◌≡◌, refl, arith, ap, sym, ◌∙◌, ◌≢◌,
}
use tern_scheduler.Cron.Calendar.{
  Civil, DateTime, civil_of, days_in_month, next_day, prev_day, advance, retreat, make_day,
}

pub record IsDay (c : Civil) : Type 0 where
  pub month_in : c.month < 12
  pub day_in : (1 ≤ c.day) × (c.day ≤ days_in_month c.year c.month)

pub record IsTime (t : DateTime) : Type 0 where
  pub on_day : IsDay t.civil
  pub hours_in : t.hours < 24
  pub minutes_in : t.minutes < 60
  pub seconds_in : t.seconds < 60

pub days_in_month_bounds : (y m : ℕ) → (28 ≤ days_in_month y m) × (days_in_month y m ≤ 31)
unfolding days_in_month
days_in_month_bounds y m = ground arith

first-IsDay : (y m : ℕ) → m < 12 → IsDay (civil_of y m 1)
first-IsDay y m h = omega (arith, days_in_month_bounds y m)

pub next_day-IsDay : (c : Civil) → IsDay c → IsDay (next_day c)
unfolding next_day
next_day-IsDay c v =
    ground (arith, days_in_month_bounds c.year (c.month + 1), days_in_month_bounds (c.year + 1) 0)

december : (y : ℕ) → days_in_month y 11 ≡ 31
unfolding days_in_month
december y = refl

prev_day-IsDay : (c : Civil) → IsDay c → IsDay (prev_day c)
unfolding prev_day
prev_day-IsDay c v =
    ground (arith, days_in_month_bounds c.year (c.month - 1), december (c.year - 1))

pub advance-IsDay : (n : ℕ) (c : Civil) → IsDay c → IsDay (advance n c)
unfolding advance
advance-IsDay zero c v = v
advance-IsDay (suc n) c v = advance-IsDay n (next_day c) (next_day-IsDay c v)

pub retreat-IsDay : (n : ℕ) (c : Civil) → IsDay c → IsDay (retreat n c)
unfolding retreat
retreat-IsDay zero c v = v
retreat-IsDay (suc n) c v = retreat-IsDay n (prev_day c) (prev_day-IsDay c v)

pub make_day-IsDay : (y m d : ℕ) → IsDay (make_day y m d)
unfolding make_day
make_day-IsDay y m zero = prev_day-IsDay _ (first-IsDay (y + m / 12) (m % 12) (omega arith))
make_day-IsDay y m (suc d) = advance-IsDay d _ (first-IsDay (y + m / 12) (m % 12) (omega arith))

next_day-within :
    (y m d : ℕ) → d < days_in_month y m → next_day (civil_of y m d) ≡ civil_of y m (d + 1)
unfolding next_day
next_day-within y m d h = ground arith

advance-within :
    (n y m d : ℕ) → d + n ≤ days_in_month y m → advance n (civil_of y m d) ≡ civil_of y m (d + n)
unfolding advance
advance-within zero y m d h = ap (civil_of y m) (omega arith)
advance-within (suc n) y m d h =
    ap (advance n) (next_day-within y m d (omega arith))
    ∙ advance-within n y m (d + 1) (omega arith)
    ∙ ap (civil_of y m) (omega arith)

advance_add : (a b : ℕ) (c : Civil) → advance (a + b) c ≡ advance b (advance a c)
unfolding advance
advance_add zero b c = let e : 0 + b ≡ b = omega arith in rw e refl
advance_add (suc a) b c =
    let e : suc a + b ≡ suc (a + b) = omega arith in rw e (advance_add a b (next_day c))

-- The month after a last day.
next_day-last :
    (y m : ℕ)
    → m < 12
    → IsDay (next_day (civil_of y m (days_in_month y m)))
      × ((next_day (civil_of y m (days_in_month y m))).day ≡ 1)
      × ((next_day (civil_of y m (days_in_month y m))).month ≢ m)
unfolding next_day
next_day-last y m h = (
  next_day-IsDay (civil_of y m (days_in_month y m)) (omega (arith, days_in_month_bounds y m)),
  ground arith,
  ground arith,
)

advance-month : (n : ℕ) (c : Civil) → c.day ≡ 1 → n < 28 → (advance n c).month ≡ c.month
advance-month n c e h =
    let fits : 1 + n ≤ days_in_month c.year c.month =
      omega (arith, days_in_month_bounds c.year c.month) in
    ap (λ (x : Civil). x.month)
      (ap (λ d. advance n (civil_of c.year c.month d)) e ∙ advance-within n c.year c.month 1 fits)

-- A day of a month of the year is made as it is named.
pub make_day_lem :
    (y m d : ℕ) → m < 12 → 1 ≤ d → d ≤ days_in_month y m → make_day y m d ≡ civil_of y m d
unfolding make_day
make_day_lem y m zero h lo hi = absurd (omega arith)
make_day_lem y m (suc d) h lo hi =
    let year_is : y + m / 12 ≡ y = omega arith in
    let month_is : m % 12 ≡ m = omega arith in
    rw (year_is, month_is) (advance-within d y m 1 (omega arith) ∙ ap (civil_of y m) (omega arith))

-- A day up to the 31st that the month does not have lies in another month.
pub make_day-beyond :
    (y m d : ℕ) → m < 12 → days_in_month y m < d → d ≤ 31 → (make_day y m d).month ≢ m
unfolding make_day advance
make_day-beyond y m zero h lo hi = absurd (omega arith)
make_day-beyond y m (suc d) h lo hi =
    let year_is : y + m / 12 ≡ y = omega arith in
    let month_is : m % 12 ≡ m = omega arith in
    let n = days_in_month y m in
    let bounds = days_in_month_bounds y m in
    let split : d ≡ (n - 1) + suc (d - n) = omega (arith, bounds) in
    let last = next_day-last y m h in
    let walk : advance d (civil_of y m 1) ≡ advance (d - n) (next_day (civil_of y m n)) =
      ap (λ k. advance k (civil_of y m 1)) split
      ∙ advance_add (n - 1) (suc (d - n)) (civil_of y m 1)
      ∙ ap (advance (suc (d - n))) (
          advance-within (n - 1) y m 1 (omega (arith, bounds))
          ∙ ap (civil_of y m) (omega (arith, bounds))) in
    rw (year_is, month_is)
      (λ e. last.2 (
        sym (
          ap (λ (x : Civil). x.month) walk ∙ advance-month (d - n) _ last.1 (omega (arith, bounds)))
        ∙ e))
