-- ===== src/Examples/CronRuns.antt =====
-- A scheduled job with a cron expression (packages/core/src/lib/strategies/task-creation/cron).
use tern_scheduler.Prelude.{◌<◌, ◌≡◌, refl, arith, inl, String}
use tern_scheduler.Errors.Exec.{ok}
use tern_scheduler.Cron.Calendar.Order.{rank}
use tern_scheduler.Cron.Text.{
  codes, split_spaces, split_commas, after_first, leading_digits, behind_digits, value_from,
  skip_spaces, parse_int, digits_of,
}
use tern_scheduler.Cron.Expression.{
  replace_asterisk_with_range, match_here, first_match, count_up, join_commas, convert_range,
  dashes, multiples, convert_step, push_all, insert_number, sort, remove_duplicates, handle_sundays,
  convert_to_model, cron_to_model,
}
use tern_scheduler.Cron.Next.{ScheduleCronModel}
use tern_scheduler.Cron.Next.Fires.{IsFireTime}
use tern_scheduler.Cron.Strategy.{
  defined, cron_to_definition, Parsed, accepted, run_at, cron_definition, create_from_new_cron,
}
use tern_scheduler.Cron.Strategy.Runs.{cron_to_definition-IsFireTime}
use tern_scheduler.Examples.{backup_job}
use tern_scheduler.Examples.Cron.{
  office, every_week_day, schedule, friday, half_past_nine, friday-IsTime, next_fire,
}

office_defined : cron_to_definition (codes "0 0,30 9,17 15,31 2,6,12 *") ≡ defined schedule
unfolding cron_to_definition cron_to_model split_spaces convert_to_model replace_asterisk_with_range
    convert_range first_match match_here count_up join_commas dashes multiples convert_step push_all
    insert_number sort remove_duplicates handle_sundays split_commas after_first leading_digits
    behind_digits value_from skip_spaces parse_int digits_of
office_defined = refl

-- Every text stands for that definition.
abbrev read : String → Parsed ScheduleCronModel
read text = accepted schedule

first_run_at : create_from_new_cron read (friday 9 10) backup_job ≡ ok (run_at half_past_nine)
unfolding create_from_new_cron cron_definition
first_run_at = rw next_fire refl

cron_to_definition-IsFireTime_example :
    IsFireTime (office every_week_day) half_past_nine × (rank (friday 9 10) < rank half_past_nine)
cron_to_definition-IsFireTime_example =
    cron_to_definition-IsFireTime read (codes "0 0,30 9,17 15,31 2,6,12 *") schedule backup_job
      (friday 9 10) half_past_nine office_defined refl
      (friday-IsTime 9 10 (omega arith) (omega arith)) (inl first_run_at)
