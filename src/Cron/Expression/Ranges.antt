-- ===== src/Cron/Expression/Ranges.antt =====
-- The rounds of convertRange of
-- packages/core/src/lib/strategies/task-creation/cron/expression.ts, and the dashes of its text.
use tern_scheduler.Prelude.{
  ℕ, zero, suc, ◌+◌, ◌-◌, ◌/◌, ◌<◌, ◌≡◌, ◌≢◌, refl, arith, ◌&&◌, ltb, ◌==◌, if◌then◌else◌, Option,
  none, some, List, [], ◌∷◌, ◌++◌, Bool-cases, inl, inr, ap, ◌∙◌,
}
use tern_scheduler.Cron.Text.{
  Text, is_digit, begins, leading_digits, behind_digits, value_from, digits_of, decimal,
  split_spaces,
}
use tern_scheduler.Cron.Expression.{
  RangeMatch, range_end, match_here, after_char, first_match, count_up, join_commas, in_order,
  replace_range, convert_range, dashes, replace_asterisk_with_range, convert_to_model, convert_step,
  remove_duplicates, unconverted, model_of, convert_parts, with_seconds, cron_to_model,
}

dashes-append : (s t : Text) → dashes (s ++ t) ≡ dashes s + dashes t
unfolding dashes
dashes-append [] t = omega arith
dashes-append (c ∷ s) t = omega (arith, dashes-append s t)

dashes-digits_of : (rounds n : ℕ) (out : Text) → dashes (digits_of rounds n out) ≡ dashes out
unfolding digits_of dashes
dashes-digits_of zero n out = refl
dashes-digits_of (suc rounds) n out = elim (Bool-cases (ltb n 10)) [
  | inl e ↦ rw (e, digits_of) (ground (arith, e))
  | inr e ↦ rw (e, digits_of) (dashes-digits_of rounds (n / 10) _ ∙ ground arith)
]

pub dashes-join_commas : (ns : List ℕ) → dashes (join_commas ns) ≡ 0
unfolding join_commas dashes
dashes-join_commas [] = refl
dashes-join_commas (n ∷ []) = dashes-digits_of (suc n) n []
dashes-join_commas (n ∷ (m ∷ ns)) =
    dashes-append (decimal n) (b',' ∷ join_commas (m ∷ ns))
    ∙ omega (arith, dashes-digits_of (suc n) n [], dashes-join_commas (m ∷ ns))

dashes-behind_digits : (s : Text) → dashes s ≡ dashes (behind_digits s)
unfolding behind_digits dashes
dashes-behind_digits [] = refl
dashes-behind_digits (c ∷ s) = ground (arith, dashes-behind_digits s)

-- A match takes a dash out of the text.
abbrev pub LosesDash : Text → Option RangeMatch → Type 0
LosesDash s none = Unit
LosesDash s (some m) = dashes m.before + dashes m.behind < dashes s

range_end-LosesDash : (first s : Text) → LosesDash s (range_end first s)
unfolding dashes
range_end-LosesDash first [] = tt
range_end-LosesDash first (c ∷ s) = elim (Bool-cases ((c == b'-') && begins is_digit s)) [
  | inl e ↦ rw e (ground (arith, e, dashes-behind_digits s))
  | inr e ↦ rw e tt
]

as_many-LosesDash :
    (s t : Text) (o : Option RangeMatch) → dashes s ≡ dashes t → LosesDash t o → LosesDash s o
as_many-LosesDash s t none e h = tt
as_many-LosesDash s t (some m) e h = omega (arith, e, h)

match_here-LosesDash : (s : Text) → LosesDash s (match_here s)
unfolding match_here
match_here-LosesDash s = elim (Bool-cases (begins is_digit s)) [
  | inl e ↦ rw e (
      as_many-LosesDash s (behind_digits s) (range_end (leading_digits s) (behind_digits s))
        (dashes-behind_digits s) (range_end-LosesDash (leading_digits s) (behind_digits s)))
  | inr e ↦ rw e tt
]

after_char-LosesDash :
    (c : ℕ) (s : Text) (o : Option RangeMatch) → LosesDash s o → LosesDash (c ∷ s) (after_char c o)
unfolding dashes
after_char-LosesDash c s none h = tt
after_char-LosesDash c s (some m) h = omega (arith, h)

either-LosesDash :
    (s : Text) (a b : Option RangeMatch)
    → LosesDash s a
    → LosesDash s b
    → LosesDash s (elim a [ some m ↦ some m | none ↦ b ])
either-LosesDash s none b h k = k
either-LosesDash s (some m) b h k = h

pub first_match-LosesDash : (s : Text) → LosesDash s (first_match s)
unfolding first_match
first_match-LosesDash [] = tt
first_match-LosesDash (c ∷ s) =
    either-LosesDash (c ∷ s) (match_here (c ∷ s)) (after_char c (first_match s))
      (match_here-LosesDash (c ∷ s))
      (after_char-LosesDash c s (first_match s) (first_match-LosesDash s))

dashes-replace_range :
    (m : RangeMatch) → dashes (replace_range m) ≡ dashes m.before + dashes m.behind
dashes-replace_range m =
    let first = value_from 0 m.first in
    let last = value_from 0 m.last in
    let numbers = if ltb last first then in_order last first else in_order first last in
    let none_there : dashes numbers ≡ 0 = ground (
      arith,
      dashes-join_commas (count_up (last + 1 - first) first),
      dashes-join_commas (count_up (first + 1 - last) last),
    ) in
    dashes-append m.before (numbers ++ m.behind)
    ∙ ap (λ n. dashes m.before + n) (dashes-append numbers m.behind)
    ∙ omega (arith, none_there)

rounds_end :
    (rest : Text → Option Text) (s : Text) (o : Option RangeMatch)
    → LosesDash s o
    → ((t : Text) → dashes t < dashes s → rest t ≢ none)
    → elim o [ none ↦ some s | some m ↦ rest (replace_range m) ] ≢ none
rounds_end rest s none h k = λ e. cc
rounds_end rest s (some m) h k = k (replace_range m) (omega (arith, dashes-replace_range m, h))

-- One round more than the text has dashes is enough.
pub convert_range_ends : (rounds : ℕ) (s : Text) → dashes s < rounds → convert_range rounds s ≢ none
unfolding convert_range
convert_range_ends zero s h = absurd (omega arith)
convert_range_ends (suc rounds) s h =
    rounds_end (convert_range rounds) s (first_match s) (first_match-LosesDash s)
      (λ t l. convert_range_ends rounds t (omega arith))

convert_total :
    (lo hi : ℕ) (o : Option Text)
    → o ≢ none
    → elim o [ none ↦ none | some numbers ↦ some (remove_duplicates lo hi (convert_step numbers)) ]
      ≢ none
convert_total lo hi none h = λ e. h refl
convert_total lo hi (some t) h = λ e. cc

pub convert_to_model_ends : (lo hi : ℕ) (expr : Text) → convert_to_model lo hi expr ≢ none
unfolding convert_to_model
convert_to_model_ends lo hi expr =
    convert_total lo hi _
      (convert_range_ends _ (replace_asterisk_with_range lo hi expr) (omega arith))

model_of_ends :
    (s m h d mo w : Option (List ℕ))
    → s ≢ none
    → m ≢ none
    → h ≢ none
    → d ≢ none
    → mo ≢ none
    → w ≢ none
    → model_of s m h d mo w ≢ unconverted
model_of_ends none m h d mo w a b c p q r = absurd (a refl)
model_of_ends (some s) none h d mo w a b c p q r = absurd (b refl)
model_of_ends (some s) (some m) none d mo w a b c p q r = absurd (c refl)
model_of_ends (some s) (some m) (some h) none mo w a b c p q r = absurd (p refl)
model_of_ends (some s) (some m) (some h) (some d) none w a b c p q r = absurd (q refl)
model_of_ends (some s) (some m) (some h) (some d) (some mo) none a b c p q r = absurd (r refl)
model_of_ends (some s) (some m) (some h) (some d) (some mo) (some w) a b c p q r = λ e. cc

convert_parts_ends : (parts : List Text) → convert_parts parts ≢ unconverted
convert_parts_ends [] = λ e. cc
convert_parts_ends (a ∷ []) = λ e. cc
convert_parts_ends (a ∷ (b ∷ [])) = λ e. cc
convert_parts_ends (a ∷ (b ∷ (c ∷ []))) = λ e. cc
convert_parts_ends (a ∷ (b ∷ (c ∷ (d ∷ [])))) = λ e. cc
convert_parts_ends (a ∷ (b ∷ (c ∷ (d ∷ (f ∷ []))))) = λ e. cc
convert_parts_ends (a ∷ (b ∷ (c ∷ (d ∷ (f ∷ (g ∷ [])))))) =
    model_of_ends _ _ _ _ _ _ (convert_to_model_ends 0 59 a) (convert_to_model_ends 0 59 b)
      (convert_to_model_ends 0 23 c) (convert_to_model_ends 1 31 d) (convert_to_model_ends 1 12 f)
      (convert_to_model_ends 0 7 g)
convert_parts_ends (a ∷ (b ∷ (c ∷ (d ∷ (f ∷ (g ∷ (h ∷ rest))))))) = λ e. cc

pub cron_to_model_ends : (expression : Text) → cron_to_model expression ≢ unconverted
unfolding cron_to_model
cron_to_model_ends expression = convert_parts_ends (with_seconds (split_spaces expression))
