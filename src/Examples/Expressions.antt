-- ===== src/Examples/Expressions.antt =====
-- Texts of cron expressions (packages/core/src/lib/strategies/task-creation/cron/expression.ts).
use tern_scheduler.Prelude.{ℕ, ◌+◌, ◌-◌, some, List, [], ◌∷◌, ◌≡◌, ◌≢◌, refl, arith}
use tern_scheduler.Cron.Text.{
  Text, codes, split_spaces, split_commas, after_first, leading_digits, behind_digits, value_from,
  skip_spaces, parse_int, digits_of,
}
use tern_scheduler.Cron.Expression.{
  replace_asterisk_with_range, match_here, first_match, count_up, join_commas, convert_range,
  dashes, multiples, convert_step, push_all, insert_number, sort, remove_duplicates, handle_sundays,
  convert_to_model, invalid_argument, unconverted, cron_to_model,
}
use tern_scheduler.Cron.Expression.RoundTrip.{convert_to_model-join_commas}
use tern_scheduler.Cron.Expression.Intervals.{interval, convert_to_model-interval}
use tern_scheduler.Cron.Expression.Models.{SoundOnly, cron_to_model_lem}

abbrev office_hours : Text
office_hours = codes "0 */10 9-17 1,15 * 1-5"

cron_to_model_lem_example :
    (cron_to_model office_hours ≢ unconverted) × SoundOnly (cron_to_model office_hours)
cron_to_model_lem_example = cron_to_model_lem office_hours

abbrev quarters : List ℕ
quarters = 0 ∷ 15 ∷ 30 ∷ 45 ∷ []

convert_to_model-join_commas_example : convert_to_model 0 59 (join_commas quarters) ≡ some quarters
convert_to_model-join_commas_example =
    convert_to_model-join_commas 0 59 quarters (omega arith) (omega arith)

convert_to_model-interval_example :
    convert_to_model 0 7 (interval 1 5) ≡ some (count_up (5 + 1 - 1) 1)
convert_to_model-interval_example =
    convert_to_model-interval 0 7 1 5 (omega arith) (omega arith) (omega arith)

every_quarter : convert_to_model 0 59 (codes "*/15") ≡ some quarters
unfolding convert_to_model replace_asterisk_with_range convert_range first_match match_here count_up
    join_commas dashes multiples convert_step push_all insert_number sort remove_duplicates
    split_commas after_first leading_digits behind_digits value_from skip_spaces parse_int digits_of
every_quarter = refl

-- A step takes the multiples, wherever the interval begins.
thirds : convert_to_model 0 59 (codes "1-10/3") ≡ some (3 ∷ 6 ∷ 9 ∷ [])
unfolding convert_to_model replace_asterisk_with_range convert_range first_match match_here count_up
    join_commas dashes multiples convert_step push_all insert_number sort remove_duplicates
    split_commas after_first leading_digits behind_digits value_from skip_spaces parse_int digits_of
thirds = refl

four_parts : cron_to_model (codes "0 0  1 *") ≡ invalid_argument
unfolding cron_to_model split_spaces
four_parts = refl

sundays : handle_sundays (0 ∷ 3 ∷ 7 ∷ []) ≡ 0 ∷ 3 ∷ []
unfolding handle_sundays remove_duplicates push_all insert_number sort
sundays = refl

backwards : convert_to_model 0 23 (codes "17-15,2") ≡ some (2 ∷ 15 ∷ 16 ∷ 17 ∷ [])
unfolding convert_to_model replace_asterisk_with_range convert_range first_match match_here count_up
    join_commas dashes multiples convert_step push_all insert_number sort remove_duplicates
    split_commas after_first leading_digits behind_digits value_from skip_spaces parse_int digits_of
backwards = refl
