-- ===== src/Cron/Expression/Intervals.antt =====
-- Intervals and the asterisk in convertToModel of
-- packages/core/src/lib/strategies/task-creation/cron/expression.ts.
use tern_scheduler.Prelude.{
  ℕ, zero, suc, ◌+◌, ◌-◌, ◌≤◌, ◌<◌, ◌≡◌, refl, arith, true, false, ltb, ◌==◌, if◌then◌else◌, none,
  some, [], ◌∷◌, ◌++◌, All, ap, sym, subst, ◌∙◌, append-nil,
}
use tern_scheduler.Cron.Text.{Text, is_digit, begins, leading_digits, behind_digits, decimal}
use tern_scheduler.Cron.Text.Decimal.{
  IsDigits, decimal-IsDigits, decimal-begins, leading_digits_lem, value_from-decimal,
}
use tern_scheduler.Cron.Expression.{
  replace_asterisk_with_range, RangeMatch, range_end, match_here, first_match, count_up,
  join_commas, in_order, replace_range, convert_range, dashes, convert_step, remove_duplicates,
  convert_to_model,
}
use tern_scheduler.Cron.Expression.Sets.{IsAscending}
use tern_scheduler.Cron.Expression.RoundTrip.{no_asterisk, numbers_lem}
use tern_scheduler.Cron.Next.Values.{Within}

-- `a-b`
abbrev pub interval : ℕ → ℕ → Text
interval a b = decimal a ++ (b'-' ∷ decimal b)

abbrev interval_match : ℕ → ℕ → RangeMatch
interval_match a b = record { before = []; first = decimal a; last = decimal b; behind = [] }

begins-append : (w s : Text) → begins is_digit w ≡ true → begins is_digit (w ++ s) ≡ true
begins-append [] s h = absurd (cc)
begins-append (c ∷ w) s h = h

decimal_alone :
    (n : ℕ) → (leading_digits (decimal n) ≡ decimal n) × (behind_digits (decimal n) ≡ [])
decimal_alone n =
    let l = leading_digits_lem (decimal n) [] (decimal-IsDigits n) refl in
    let e = append-nil (decimal n) in
    (ap leading_digits (sym e) ∙ l.0, ap behind_digits (sym e) ∙ l.1)

range_end-dash :
    (first s : Text)
    → begins is_digit s ≡ true
    → range_end first (b'-' ∷ s)
      ≡ some
          (record { before = []; first = first; last = leading_digits s; behind = behind_digits s })
range_end-dash first s h = rw h refl

match_here-interval : (a b : ℕ) → match_here (interval a b) ≡ some (interval_match a b)
unfolding match_here
match_here-interval a b =
    let l = leading_digits_lem (decimal a) (b'-' ∷ decimal b) (decimal-IsDigits a) refl in
    let d = decimal_alone b in
    rw (begins-append (decimal a) (b'-' ∷ decimal b) (decimal-begins a), l.0, l.1)
      (range_end-dash (decimal a) (decimal b) (decimal-begins b) ∙ rw (d.0, d.1) refl)

first_match-here :
    (s : Text) (m : RangeMatch)
    → begins is_digit s ≡ true
    → match_here s ≡ some m
    → first_match s ≡ some m
unfolding first_match
first_match-here [] m b e = absurd (cc)
first_match-here (c ∷ s) m b e = rw (e, first_match) refl

first_match-interval : (a b : ℕ) → first_match (interval a b) ≡ some (interval_match a b)
first_match-interval a b =
    first_match-here (interval a b) (interval_match a b)
      (begins-append (decimal a) (b'-' ∷ decimal b) (decimal-begins a)) (match_here-interval a b)

replace-interval :
    (a b : ℕ) → a ≤ b → replace_range (interval_match a b) ≡ join_commas (count_up (b + 1 - a) a)
replace-interval a b h =
    let e : ltb b a ≡ false = ground (arith, h) in
    rw (value_from-decimal a, value_from-decimal b, e) (append-nil (in_order a b))

one_round :
    (rounds : ℕ) (s : Text) (m : RangeMatch)
    → first_match s ≡ some m
    → convert_range (suc rounds) s ≡ convert_range rounds (replace_range m)
unfolding convert_range
one_round rounds s m e = rw (e, convert_range) refl

dashes-suc : (w s : Text) → (n : ℕ) × (dashes (w ++ (b'-' ∷ s)) ≡ suc n)
unfolding dashes
dashes-suc [] s = (dashes s, omega arith)
dashes-suc (c ∷ w) s =
    let (n, e) = dashes-suc w s in ((if c == b'-' then 1 else 0) + n, omega (arith, e))

count_up-Within : (n a lo hi : ℕ) → lo ≤ a → a + n ≤ hi + 1 → Within lo hi (count_up n a)
unfolding count_up
count_up-Within zero a lo hi l h = tt
count_up-Within (suc n) a lo hi l h =
    ((l, omega arith), count_up-Within n (a + 1) lo hi (omega arith) (omega arith))

count_up-All : (n a x : ℕ) → x < a → All (λ y. x < y) (count_up n a)
unfolding count_up
count_up-All zero a x h = tt
count_up-All (suc n) a x h = (h, count_up-All n (a + 1) x (omega arith))

count_up-IsAscending : (n a : ℕ) → IsAscending (count_up n a)
unfolding count_up
count_up-IsAscending zero a = tt
count_up-IsAscending (suc n) a =
    (count_up-All n (a + 1) a (omega arith), count_up-IsAscending n (a + 1))

interval_numbers :
    (lo hi a b : ℕ)
    → a ≤ b
    → lo ≤ a
    → b ≤ hi
    → elim (convert_range (suc (dashes (interval a b))) (interval a b)) [
      | none ↦ none
      | some numbers ↦ some (remove_duplicates lo hi (convert_step numbers))
    ]
      ≡ some (count_up (b + 1 - a) a)
interval_numbers lo hi a b h l u =
    let (n, e) = dashes-suc (decimal a) (decimal b) in
    rw
      (
        one_round (dashes (interval a b)) (interval a b) (interval_match a b)
            (first_match-interval a b),
        e,
        replace-interval a b h,
      )
      (numbers_lem lo hi n (count_up (b + 1 - a) a)
        (count_up-Within (b + 1 - a) a lo hi l (omega arith)) (count_up-IsAscending (b + 1 - a) a))

digits_plain :
    (w s : Text)
    → IsDigits w
    → All (λ c. (c == b'*') ≡ false) s
    → All (λ c. (c == b'*') ≡ false) (w ++ s)
digits_plain [] s d h = h
digits_plain (c ∷ w) s d h = (ground (arith, d.0), digits_plain w s d.1 h)

interval_plain : (a b : ℕ) → All (λ c. (c == b'*') ≡ false) (interval a b)
interval_plain a b =
    let last : All (λ c. (c == b'*') ≡ false) (decimal b) =
      subst (All (λ c. (c == b'*') ≡ false)) (append-nil (decimal b))
        (digits_plain (decimal b) [] (decimal-IsDigits b) tt) in
    digits_plain (decimal a) (b'-' ∷ decimal b) (decimal-IsDigits a) (refl, last)

-- An interval `a-b` with `a` not above `b`, within the range, gives all its numbers in order.
pub convert_to_model-interval :
    (lo hi a b : ℕ)
    → a ≤ b
    → lo ≤ a
    → b ≤ hi
    → convert_to_model lo hi (interval a b) ≡ some (count_up (b + 1 - a) a)
unfolding convert_to_model
convert_to_model-interval lo hi a b h l u =
    rw (no_asterisk lo hi (interval a b) (interval_plain a b), convert_to_model)
      (interval_numbers lo hi a b h l u)

asterisk_replaced : (lo hi : ℕ) → replace_asterisk_with_range lo hi (b'*' ∷ []) ≡ interval lo hi
unfolding replace_asterisk_with_range
asterisk_replaced lo hi = ap (λ t. decimal lo ++ (b'-' ∷ t)) (append-nil (decimal hi))

-- ... and so does the asterisk, for the whole range.
pub convert_to_model-asterisk :
    (lo hi : ℕ) → lo ≤ hi → convert_to_model lo hi (b'*' ∷ []) ≡ some (count_up (hi + 1 - lo) lo)
unfolding convert_to_model
convert_to_model-asterisk lo hi h =
    rw (asterisk_replaced lo hi, convert_to_model)
      (interval_numbers lo hi lo hi h (omega arith) (omega arith))
