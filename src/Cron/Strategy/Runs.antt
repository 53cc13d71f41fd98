-- ===== src/Cron/Strategy/Runs.antt =====
-- The runs of a cron expression (packages/core/src/lib/strategies/task-creation/cron): from its text
-- to the time that the strategy answers with.
use tern_scheduler.Prelude.{◌<◌, subst, ◌≡◌, refl, sym, ap, ◌∙◌, String, ◌⊎◌, inl, inr}
use tern_scheduler.Model.Schedule.{ScheduledJob}
use tern_scheduler.Errors.Exec.{ok}
use tern_scheduler.Cron.Calendar.{DateTime}
use tern_scheduler.Cron.Calendar.Laws.{IsTime}
use tern_scheduler.Cron.Calendar.Order.{rank}
use tern_scheduler.Cron.Text.{Text}
use tern_scheduler.Cron.Expression.{
  Conversion, converted, invalid_argument, unconverted, cron_to_model,
}
use tern_scheduler.Cron.Expression.Models.{IsSound, SoundOnly, cron_to_model_lem}
use tern_scheduler.Cron.Next.{
  ScheduleCronModel, CronTime, at, never, invalid_date, endless, start_from, next_cron_time,
}
use tern_scheduler.Cron.Next.Fires.{IsFireTime}
use tern_scheduler.Cron.Next.Utc.{next_cron_time-IsFireTime}
use tern_scheduler.Cron.Strategy.{
  in_utc, defined, in_utc_definition, cron_to_definition, Parsed, accepted, run_at, first_run,
  cron_definition, create_from_new_cron, create_after_cron_starts, queue_task, next_run,
}

defined-IsSound :
    (c : Conversion) (model : ScheduleCronModel)
    → SoundOnly c
    → in_utc_definition c ≡ defined model
    → IsSound model.cron × (model ≡ in_utc model.cron)
unfolding SoundOnly
defined-IsSound (converted m) model s e = let i : in_utc m ≡ model = cc in rw (sym i) (s, refl)
defined-IsSound invalid_argument model s e = absurd (cc)
defined-IsSound unconverted model s e = absurd (cc)

definition-IsSound :
    (expression : Text) (model : ScheduleCronModel)
    → cron_to_definition expression ≡ defined model
    → IsSound model.cron × (model ≡ in_utc model.cron)
unfolding cron_to_definition
definition-IsSound expression model e =
    defined-IsSound (cron_to_model expression) model (cron_to_model_lem expression).1 e

-- The next time of an expression, without any condition on it.
definition-IsFireTime :
    (expression : Text) (model : ScheduleCronModel) (now r : DateTime)
    → cron_to_definition expression ≡ defined model
    → IsTime now
    → next_cron_time model now ≡ at r
    → IsFireTime model.cron r × (rank now < rank r)
definition-IsFireTime expression model now r d v e =
    let s = definition-IsSound expression model d in
    let f =
      next_cron_time-IsFireTime model now r v s.0.in_range
        (ap (λ (m : ScheduleCronModel). m.utc_offset_minutes) s.1) e in
    (
      f.0,
      subst (λ o. rank (start_from o now) < rank r)
          (ap (λ (m : ScheduleCronModel). m.start_after) s.1) f.1,
    )

first_run-run_at :
    (schedule : ScheduledJob) (c : CronTime) (r : DateTime)
    → first_run schedule c ≡ ok (run_at r)
    → c ≡ at r
first_run-run_at schedule (at t) r e = cc
first_run-run_at schedule never r e = absurd (cc)
first_run-run_at schedule invalid_date r e = absurd (cc)
first_run-run_at schedule endless r e = absurd (cc)

next_run-run_at : (c : CronTime) (r : DateTime) → next_run c ≡ queue_task (run_at r) → c ≡ at r
next_run-run_at (at t) r e = cc
next_run-run_at never r e = absurd (cc)
next_run-run_at invalid_date r e = absurd (cc)
next_run-run_at endless r e = absurd (cc)

module _ (parse : String → Parsed ScheduleCronModel) (expression : Text) (model : ScheduleCronModel)
    (schedule : ScheduledJob) (now r : DateTime) (d : cron_to_definition expression ≡ defined model)
    (p : parse schedule.schedule_definition ≡ accepted model) (v : IsTime now) where
  first_time :
      create_from_new_cron parse now schedule ≡ ok (run_at r) → next_cron_time model now ≡ at r
  unfolding create_from_new_cron cron_definition
  first_time e =
      let k : first_run schedule (next_cron_time model now) ≡ ok (run_at r) = sym (rw p refl) ∙ e in
      first_run-run_at schedule (next_cron_time model now) r k

  later_time :
      create_after_cron_starts parse now schedule ≡ ok (queue_task (run_at r))
      → next_cron_time model now ≡ at r
  unfolding create_after_cron_starts cron_definition
  later_time e =
      let k : ok (next_run (next_cron_time model now)) ≡ ok (queue_task (run_at r)) =
        sym (rw p refl) ∙ e in
      next_run-run_at (next_cron_time model now) r (cc)

  -- When the definition of a scheduled job is the one that is made of a cron expression, and now
  -- is a valid time, both the first run that the strategy answers with and each run that it queues
  -- after a start are at a time that all six lists of the expression have, and after now.
  pub cron_to_definition-IsFireTime :
      (create_from_new_cron parse now schedule ≡ ok (run_at r))
        ⊎ (create_after_cron_starts parse now schedule ≡ ok (queue_task (run_at r)))
      → IsFireTime model.cron r × (rank now < rank r)
  cron_to_definition-IsFireTime (inl e) =
      definition-IsFireTime expression model now r d v (first_time e)
  cron_to_definition-IsFireTime (inr e) =
      definition-IsFireTime expression model now r d v (later_time e)
