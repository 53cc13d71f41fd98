-- ===== src/Cron/Expression/Models.antt =====
-- The lists of the model that cronToModel of
-- packages/core/src/lib/strategies/task-creation/cron/expression.ts makes.
use tern_scheduler.Prelude.{ℕ, ◌≢◌, Option, none, some, List, [], ◌∷◌}
use tern_scheduler.Cron.Text.{Text, split_spaces}
use tern_scheduler.Cron.Expression.{
  convert_to_model, convert_step, remove_duplicates, handle_sundays, Conversion, converted,
  invalid_argument, unconverted, model_of, convert_parts, with_seconds, cron_to_model,
}
use tern_scheduler.Cron.Expression.Ranges.{cron_to_model_ends}
use tern_scheduler.Cron.Expression.Sets.{
  IsAscending, remove_duplicates-IsAscending, remove_duplicates-Within,
}
use tern_scheduler.Cron.Next.{CronModel}
use tern_scheduler.Cron.Next.Values.{Within}
use tern_scheduler.Cron.Next.Fires.{IsInRange}

-- The lists are within their ranges and in increasing order.
pub record IsSound (model : CronModel) : Type 0 where
  pub in_range : IsInRange model
  pub week_days_in : Within 0 6 model.days_of_week
  pub seconds_up : IsAscending model.seconds
  pub minutes_up : IsAscending model.minutes
  pub hours_up : IsAscending model.hours
  pub days_up : IsAscending model.days_of_month
  pub months_up : IsAscending model.months
  pub week_days_up : IsAscending model.days_of_week

abbrev ListOnly : ℕ → ℕ → Option (List ℕ) → Type 0
ListOnly lo hi none = Unit
ListOnly lo hi (some ns) = Within lo hi ns × IsAscending ns

numbers-ListOnly :
    (lo hi : ℕ) (o : Option Text)
    → ListOnly lo hi (elim o [
      | none ↦ none
      | some numbers ↦ some (remove_duplicates lo hi (convert_step numbers))
    ])
numbers-ListOnly lo hi none = tt
numbers-ListOnly lo hi (some t) = (
  remove_duplicates-Within lo hi (convert_step t),
  remove_duplicates-IsAscending lo hi (convert_step t),
)

convert_to_model-ListOnly : (lo hi : ℕ) (expr : Text) → ListOnly lo hi (convert_to_model lo hi expr)
unfolding convert_to_model
convert_to_model-ListOnly lo hi expr = numbers-ListOnly lo hi _

unfoldable pub SoundOnly : Conversion → Type 0
SoundOnly (converted model) = IsSound model
SoundOnly invalid_argument = Unit
SoundOnly unconverted = Unit

model_of-SoundOnly :
    (s m h d mo w : Option (List ℕ))
    → ListOnly 0 59 s
    → ListOnly 0 59 m
    → ListOnly 0 23 h
    → ListOnly 1 31 d
    → ListOnly 1 12 mo
    → SoundOnly (model_of s m h d mo w)
unfolding SoundOnly handle_sundays
model_of-SoundOnly (some s) (some m) (some h) (some d) (some mo) (some w) a b c p q = record {
  in_range = record {
    clock = record { seconds_in = a.0; minutes_in = b.0; hours_in = c.0 };
    calendar = record { months_in = q.0; days_in = p.0 };
  };
  week_days_in = remove_duplicates-Within 0 6 _;
  seconds_up = a.1;
  minutes_up = b.1;
  hours_up = c.1;
  days_up = p.1;
  months_up = q.1;
  week_days_up = remove_duplicates-IsAscending 0 6 _;
}
model_of-SoundOnly none m h d mo w a b c p q = tt
model_of-SoundOnly (some s) none h d mo w a b c p q = tt
model_of-SoundOnly (some s) (some m) none d mo w a b c p q = tt
model_of-SoundOnly (some s) (some m) (some h) none mo w a b c p q = tt
model_of-SoundOnly (some s) (some m) (some h) (some d) none w a b c p q = tt
model_of-SoundOnly (some s) (some m) (some h) (some d) (some mo) none a b c p q = tt

convert_parts-SoundOnly : (parts : List Text) → SoundOnly (convert_parts parts)
unfolding SoundOnly
convert_parts-SoundOnly [] = tt
convert_parts-SoundOnly (a ∷ []) = tt
convert_parts-SoundOnly (a ∷ (b ∷ [])) = tt
convert_parts-SoundOnly (a ∷ (b ∷ (c ∷ []))) = tt
convert_parts-SoundOnly (a ∷ (b ∷ (c ∷ (d ∷ [])))) = tt
convert_parts-SoundOnly (a ∷ (b ∷ (c ∷ (d ∷ (f ∷ []))))) = tt
convert_parts-SoundOnly (a ∷ (b ∷ (c ∷ (d ∷ (f ∷ (g ∷ [])))))) =
    model_of-SoundOnly _ _ _ _ _ (convert_to_model 0 7 g) (convert_to_model-ListOnly 0 59 a)
      (convert_to_model-ListOnly 0 59 b) (convert_to_model-ListOnly 0 23 c)
      (convert_to_model-ListOnly 1 31 d) (convert_to_model-ListOnly 1 12 f)
convert_parts-SoundOnly (a ∷ (b ∷ (c ∷ (d ∷ (f ∷ (g ∷ (h ∷ rest))))))) = tt

cron_to_model-SoundOnly : (expression : Text) → SoundOnly (cron_to_model expression)
unfolding cron_to_model
cron_to_model-SoundOnly expression =
    convert_parts-SoundOnly (with_seconds (split_spaces expression))

-- Every text is converted or refused: the loop that replaces the ranges always ends. Whatever the
-- text, a model that is made of it has increasing lists of the numbers that a clock and a calendar
-- have, and days of the week from 0 to 6.
pub cron_to_model_lem :
    (expression : Text)
    → (cron_to_model expression ≢ unconverted) × SoundOnly (cron_to_model expression)
cron_to_model_lem expression = (cron_to_model_ends expression, cron_to_model-SoundOnly expression)
