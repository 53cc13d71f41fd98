-- ===== src/Cron/Next/Utc.antt =====
-- nextCronTime of packages/core/src/lib/strategies/task-creation/cron/next.ts for a schedule in UTC.
use tern_scheduler.Prelude.{ℕ, ◌+◌, ◌≤◌, ◌<◌, ◌≡◌, arith, ◌⊎◌, inl, inr, ap, subst, ◌∙◌, pos}
use tern_scheduler.Cron.Calendar.{DateTime, shift_minutes}
use tern_scheduler.Cron.Calendar.Laws.{IsTime}
use tern_scheduler.Cron.Calendar.Shift.{shift_minutes_zero}
use tern_scheduler.Cron.Next.{
  ScheduleCronModel, maximum_year_in_future, at, negate_ℤ, start_from, next_full_second, is_over,
  next_cron_time,
}
use tern_scheduler.Cron.Calendar.Order.{rank}
use tern_scheduler.Cron.Next.Later.{set_seconds_later}
use tern_scheduler.Cron.Next.Fires.{
  IsFireTime, IsAnswer, AnswerOnly, IsInRange, start, start_from-IsTime, next_full_second-IsTime,
  next_cron_time-AnswerOnly,
}

zone_free :
    (model : ScheduleCronModel) (farthest_year from : ℕ) (r t : DateTime)
    → model.utc_offset_minutes ≡ pos 0
    → IsAnswer model farthest_year from r t
    → r ≡ t
zone_free model farthest_year from r t z a =
    a.shifted ∙ ap (λ o. shift_minutes (negate_ℤ o) t) z ∙ shift_minutes_zero t a.is_time

utc-IsFireTime :
    (model : ScheduleCronModel) (farthest_year from : ℕ) (r t : DateTime)
    → model.utc_offset_minutes ≡ pos 0
    → IsAnswer model farthest_year from r t
    → IsFireTime model.cron t ⊎ (farthest_year ≤ t.civil.year)
    → IsFireTime model.cron r
utc-IsFireTime model farthest_year from r t z a (inl f) =
    rw (zone_free model farthest_year from r t z a) f
utc-IsFireTime model farthest_year from r t z a (inr h) =
    let e : r.civil.year ≡ t.civil.year =
      ap (λ (x : DateTime). x.civil.year) (zone_free model farthest_year from r t z a) in
    absurd (omega (arith, a.near))

next_full_second_later : (t : DateTime) → IsTime t → rank t < rank (next_full_second t)
next_full_second_later t v = omega (arith, set_seconds_later (t.seconds + 1) t v.on_day)

-- In UTC the search starts after now.
start_later :
    (model : ScheduleCronModel) (now : DateTime)
    → IsTime now
    → model.utc_offset_minutes ≡ pos 0
    → rank (start_from model.start_after now) < rank (start model now)
start_later model now v z =
    let first = start_from-IsTime model.start_after now v in
    let same : start model now ≡ next_full_second (start_from model.start_after now) =
      ap (λ o. shift_minutes o (next_full_second (start_from model.start_after now))) z
      ∙ shift_minutes_zero _ (next_full_second-IsTime _ first) in
    rw same (next_full_second_later (start_from model.start_after now) first)

-- Of a schedule in UTC, asked at a valid time and with lists in the ranges of a clock and a
-- calendar, the time that it fires next is always a time that all six lists have, after now, and
-- after `startAfter`, if now is before it: a search that was given up never gives a time.
pub next_cron_time-IsFireTime :
    (model : ScheduleCronModel) (now r : DateTime)
    → IsTime now
    → IsInRange model.cron
    → model.utc_offset_minutes ≡ pos 0
    → next_cron_time model now ≡ at r
    → IsFireTime model.cron r × (rank (start_from model.start_after now) < rank r)
next_cron_time-IsFireTime model now r v c z e =
    let far = now.civil.year + maximum_year_in_future in
    let a : AnswerOnly model far (rank (start model now)) (is_over model.end_by now) (at r) =
      subst (AnswerOnly model far (rank (start model now)) (is_over model.end_by now)) e
        (next_cron_time-AnswerOnly model now v c) in
    unfold AnswerOnly in
    (
      utc-IsFireTime model far _ r a.0 z a.1 a.1.fires_or_far,
      (let same : rank r ≡ rank a.0 = ap rank (zone_free model far _ r a.0 z a.1) in
          omega (arith, a.1.not_before, start_later model now v z)),
    )
