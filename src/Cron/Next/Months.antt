-- ===== src/Cron/Next/Months.antt =====
-- The outer loop of nextCronTime (packages/core/src/lib/strategies/task-creation/cron/next.ts): the
-- months up to the farthest year.
use tern_scheduler.Prelude.{
  ℕ, zero, suc, ◌+◌, ◌*◌, ◌%◌, ◌≤◌, ◌<◌, ◌≡◌, refl, arith, true, ◌==◌, if◌then◌else◌, Option, none,
  some, List, [], ◌∷◌, Bool-cases, Option-cases, List-cases, inl, inr, sym, ◌∙◌,
}
use tern_scheduler.Cron.Calendar.{DateTime, make_day, advance, set_date, set_month, set_full_year}
use tern_scheduler.Cron.Calendar.Order.{day_rank}
use tern_scheduler.Cron.Calendar.Laws.{days_in_month_bounds, IsDay, make_day-IsDay}
use tern_scheduler.Cron.Next.{
  CronModel, find_next, is_week_match, find_month, increment_month, Search, found, exhausted,
  invalid, stuck,
}
use tern_scheduler.Cron.Next.Values.{listed, head_listed, Within, listed-Within, find_next_lem}
use tern_scheduler.Cron.Next.DayLoop.{IsCronDay}

-- The number of a month.
abbrev pub index : DateTime → ℕ
index t = t.civil.year * 12 + t.civil.month

-- Another month, at the same time of the day.
pub record IsLaterMonth (t t' : DateTime) : Type 0 where
  pub on_day : IsDay t'.civil
  pub later : index t ≤ index t'
  pub later_day : day_rank t.civil ≤ day_rank t'.civil
  pub same_hours : t'.hours ≡ t.hours
  pub same_minutes : t'.minutes ≡ t.minutes
  pub same_seconds : t'.seconds ≡ t.seconds
  pub same_millis : t'.millis ≡ t.millis

pub same-IsLaterMonth : (t : DateTime) → IsDay t.civil → IsLaterMonth t t
same-IsLaterMonth t v = record {
  on_day = v;
  later = omega arith;
  later_day = omega arith;
  same_hours = refl;
  same_minutes = refl;
  same_seconds = refl;
  same_millis = refl;
}

abbrev pub FoundMonth : CronModel → DateTime → Option DateTime → Type 0
FoundMonth model t none = model.months ≡ []
FoundMonth model t (some t') = IsLaterMonth t t' × (listed (t'.civil.month + 1) model.months ≡ true)

module _ (model : CronModel) (t : DateTime) (v : IsDay t.civil)
    (months : Within 1 12 model.months) where
  to_month :
      (next : ℕ)
      → listed next model.months ≡ true
      → t.civil.month + 1 < next
      → IsLaterMonth t (set_month next (set_date 1 t))
        × (listed ((set_month next (set_date 1 t)).civil.month + 1) model.months ≡ true)
  unfolding set_month set_date make_day advance
  to_month zero l h = absurd (omega arith)
  to_month (suc m) l h =
      let b = listed-Within 1 12 (suc m) model.months months l in
      let e : m % 12 + 1 ≡ suc m = omega (arith, b) in
      (
        record {
          on_day = make_day-IsDay _ m 1;
          later = omega (arith, v.month_in);
          later_day =
              omega (arith, v.month_in, v.day_in, days_in_month_bounds t.civil.year t.civil.month);
          same_hours = refl;
          same_minutes = refl;
          same_seconds = refl;
          same_millis = refl;
        },
        rw e l,
      )

  -- The first day of the list's first month in the year after.
  to_year :
      (first : ℕ)
      → listed first model.months ≡ true
      → (let t' = set_month first (set_date 1 t) in
          IsLaterMonth t (set_full_year (t'.civil.year + 1) t')
          × (listed ((set_full_year (t'.civil.year + 1) t').civil.month + 1) model.months ≡ true))
  unfolding set_month set_date set_full_year make_day advance
  to_year zero l = absurd (omega (arith, listed-Within 1 12 zero model.months months l))
  to_year (suc m) l =
      let b = listed-Within 1 12 (suc m) model.months months l in
      let e : m % 12 % 12 + 1 ≡ suc m = omega (arith, b) in
      (
        record {
          on_day = make_day-IsDay _ (m % 12) 1;
          later = omega (arith, v.month_in, b);
          later_day =
              omega
                (arith, v.month_in, v.day_in, b, days_in_month_bounds t.civil.year t.civil.month);
          same_hours = refl;
          same_minutes = refl;
          same_seconds = refl;
          same_millis = refl;
        },
        rw e l,
      )

  stay_or_go :
      (next : ℕ)
      → listed next model.months ≡ true
      → t.civil.month + 1 ≤ next
      → FoundMonth model t
          (some (if next == t.civil.month + 1 then t else set_month next (set_date 1 t)))
  stay_or_go next l h = elim (Bool-cases (next == t.civil.month + 1)) [
    | inl e ↦
        let same : next ≡ t.civil.month + 1 = ground arith in
        rw e (same-IsLaterMonth t v, rw (← same) l)
    | inr e ↦ rw e (to_month next l (ground (arith, e, h)))
  ]

module _ (model : CronModel) (t : DateTime) where
  find_month-some :
      (n : ℕ)
      → find_next (t.civil.month + 1) model.months ≡ some n
      → find_month model t ≡ some (if n == t.civil.month + 1 then t else set_month n (set_date 1 t))
  unfolding find_month
  find_month-some n e = rw (e, find_month) refl

  find_month_wraps :
      (first : ℕ) (rest : List ℕ)
      → model.months ≡ first ∷ rest
      → find_next (t.civil.month + 1) model.months ≡ none
      → find_month model t
        ≡ some (let t' = set_month first (set_date 1 t) in set_full_year (t'.civil.year + 1) t')
  unfolding find_month
  find_month_wraps first rest l e = rw (e, l, find_month) refl

  find_month_empty : model.months ≡ [] → find_month model t ≡ none
  unfolding find_month find_next
  find_month_empty l = rw (l, find_month) refl

  -- The outer loop's first step goes to a month that the model lists, not before the current one.
  pub find_month-FoundMonth :
      IsDay t.civil → Within 1 12 model.months → FoundMonth model t (find_month model t)
  find_month-FoundMonth v months =
      elim (Option-cases (find_next (t.civil.month + 1) model.months)) [
        | inr (n, e) ↦
            let l = find_next_lem (t.civil.month + 1) n model.months e in
            rw (find_month-some n e) (stay_or_go model t v months n l.1 l.0)
        | inl e ↦ elim (List-cases model.months) [
          | inl none_listed ↦ rw (find_month_empty none_listed) none_listed
          | inr (first, rest, l) ↦
              rw (find_month_wraps first rest l e)
                (to_year model t v months first (rw l (head_listed first rest)))
        ]
      ]

-- The month after.
pub next_month-IsLaterMonth :
    (t : DateTime)
    → IsDay t.civil
    → IsLaterMonth t (increment_month t) × (index (increment_month t) ≡ suc (index t))
unfolding set_month set_date make_day advance
next_month-IsLaterMonth t v = (
  record {
    on_day = make_day-IsDay _ (t.civil.month % 12 + 1) 1;
    later = omega (arith, v.month_in);
    later_day =
        omega (arith, v.month_in, v.day_in, days_in_month_bounds t.civil.year t.civil.month);
    same_hours = refl;
    same_minutes = refl;
    same_seconds = refl;
    same_millis = refl;
  },
  omega (arith, v.month_in),
)

-- A day that the model lists by its month, its number and its day of the week, at the time of `t`.
-- A search that has given up has reached the farthest year.
pub record IsCronDate (model : CronModel) (t t' : DateTime) : Type 0 where
  pub is_later : IsLaterMonth t t'
  pub month_listed : listed (t'.civil.month + 1) model.months ≡ true
  pub day_listed : listed t'.civil.day model.days_of_month ≡ true
  pub week_day_listed : is_week_match model t' ≡ true

unfoldable pub SearchOnly : CronModel → ℕ → DateTime → Search → Type 0
SearchOnly model farthest_year t (found t') = IsCronDate model t t'
SearchOnly model farthest_year t (exhausted t') =
    IsLaterMonth t t' × (farthest_year ≤ t'.civil.year)
SearchOnly model farthest_year t invalid = model.months ≡ []
SearchOnly model farthest_year t stuck = Unit

pub later_later : (t t1 t2 : DateTime) → IsLaterMonth t t1 → IsLaterMonth t1 t2 → IsLaterMonth t t2
later_later t t1 t2 a b = record {
  on_day = b.on_day;
  later = omega (arith, a.later, b.later);
  later_day = omega (arith, a.later_day, b.later_day);
  same_hours = b.same_hours ∙ a.same_hours;
  same_minutes = b.same_minutes ∙ a.same_minutes;
  same_seconds = b.same_seconds ∙ a.same_seconds;
  same_millis = b.same_millis ∙ a.same_millis;
}

pub later-SearchOnly :
    (model : CronModel) (farthest_year : ℕ) (t t1 : DateTime) (r : Search)
    → IsLaterMonth t t1
    → SearchOnly model farthest_year t1 r
    → SearchOnly model farthest_year t r
unfolding SearchOnly
later-SearchOnly model farthest_year t t1 (found t') h s = record {
  is_later = later_later t t1 t' h s.is_later;
  month_listed = s.month_listed;
  day_listed = s.day_listed;
  week_day_listed = s.week_day_listed;
}
later-SearchOnly model farthest_year t t1 (exhausted t') h s = (later_later t t1 t' h s.0, s.1)
later-SearchOnly model farthest_year t t1 invalid h s = s
later-SearchOnly model farthest_year t t1 stuck h s = tt

-- The day that the inner loop finds in a month of the model.
pub day-IsCronDate :
    (model : CronModel) (t t' : DateTime)
    → IsDay t.civil
    → listed (t.civil.month + 1) model.months ≡ true
    → IsCronDay model t t'
    → IsCronDate model t t'
day-IsCronDate model t t' v l d = rw d.same_time (record {
  is_later = record {
    on_day = omega (arith, v.month_in, v.day_in, d.is_listed.after, d.is_listed.exists);
    later = omega arith;
    later_day = omega (arith, d.is_listed.after);
    same_hours = refl;
    same_minutes = refl;
    same_seconds = refl;
    same_millis = refl;
  };
  month_listed = l;
  day_listed = d.is_listed.on_list;
  week_day_listed = rw (sym d.same_time) d.on_week_day;
})
