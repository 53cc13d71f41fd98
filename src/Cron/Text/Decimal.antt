-- ===== src/Cron/Text/Decimal.antt =====
-- Decimal numbers in the texts of
-- packages/core/src/lib/strategies/task-creation/cron/expression.ts: `String(n)` and `parseInt`.
use tern_scheduler.Prelude.{
  ℕ, zero, suc, ◌/◌, ◌<◌, ◌≡◌, refl, arith, true, false, ltb, ◌==◌, some, [], ◌∷◌, ◌++◌, All,
  Bool-cases, inl, inr, ap, ◌∙◌, pos,
}
use tern_scheduler.Cron.Text.{
  Text, is_digit, is_space, begins, leading_digits, behind_digits, value_from, skip_spaces,
  digits_value, signed, plus, parse_int, digits_of, decimal,
}

abbrev pub IsDigits : Text → Type 0
IsDigits = All (λ c. is_digit c ≡ true)

digits_of-IsDigits : (rounds n : ℕ) (out : Text) → IsDigits out → IsDigits (digits_of rounds n out)
unfolding digits_of
digits_of-IsDigits zero n out h = h
digits_of-IsDigits (suc rounds) n out h = elim (Bool-cases (ltb n 10)) [
  | inl e ↦ rw (e, digits_of) (ground (arith, e), h)
  | inr e ↦ rw (e, digits_of) (digits_of-IsDigits rounds (n / 10) _ (ground arith, h))
]

pub decimal-IsDigits : (n : ℕ) → IsDigits (decimal n)
decimal-IsDigits n = digits_of-IsDigits (suc n) n [] tt

digits_of-begins :
    (rounds n : ℕ) (out : Text)
    → begins is_digit out ≡ true
    → begins is_digit (digits_of rounds n out) ≡ true
unfolding digits_of
digits_of-begins zero n out h = h
digits_of-begins (suc rounds) n out h = elim (Bool-cases (ltb n 10)) [
  | inl e ↦ rw (e, digits_of) (ground (arith, e))
  | inr e ↦ rw (e, digits_of) (digits_of-begins rounds (n / 10) _ (ground arith))
]

pub decimal-begins : (n : ℕ) → begins is_digit (decimal n) ≡ true
unfolding digits_of
decimal-begins n = elim (Bool-cases (ltb n 10)) [
  | inl e ↦ rw (e, digits_of) (ground (arith, e))
  | inr e ↦ rw (e, digits_of) (digits_of-begins n (n / 10) _ (ground arith))
]

value_from-digits_of :
    (rounds n : ℕ) (out : Text)
    → n < rounds
    → value_from 0 (digits_of rounds n out) ≡ value_from n out
unfolding digits_of value_from
value_from-digits_of zero n out h = absurd (omega arith)
value_from-digits_of (suc rounds) n out h = elim (Bool-cases (ltb n 10)) [
  | inl e ↦ rw (e, digits_of) (ap (λ k. value_from k out) (omega arith))
  | inr e ↦
      rw (e, digits_of)
        (value_from-digits_of rounds (n / 10) _ (ground (arith, e))
          ∙ ap (λ k. value_from k out) (omega arith))
]

pub value_from-decimal : (n : ℕ) → value_from 0 (decimal n) ≡ n
unfolding value_from
value_from-decimal n = value_from-digits_of (suc n) n [] (omega arith)

-- The digits end where a character is none.
pub leading_digits_lem :
    (w s : Text)
    → IsDigits w
    → begins is_digit s ≡ false
    → (leading_digits (w ++ s) ≡ w) × (behind_digits (w ++ s) ≡ s)
unfolding leading_digits behind_digits
leading_digits_lem [] [] d h = (refl, refl)
leading_digits_lem [] (c ∷ s) d h = (ground (arith, h), ground (arith, h))
leading_digits_lem (c ∷ w) s d h =
    let ih = leading_digits_lem w s d.1 h in (rw (d.0) (ap (λ t. c ∷ t) ih.0), rw (d.0) ih.1)

space_free : (c : ℕ) → is_digit c ≡ true → is_space c ≡ false
space_free c d = ground (arith, d)

sign_free : (c : ℕ) → is_digit c ≡ true → ((c == b'-') ≡ false) × ((c == b'+') ≡ false)
sign_free c d = (ground (arith, d), ground (arith, d))

signed_digits :
    (c : ℕ) (s : Text) → is_digit c ≡ true → signed (c ∷ s) ≡ plus (digits_value (c ∷ s))
signed_digits c s d = let f = sign_free c d in rw (f.0, f.1) refl

skip_nothing : (c : ℕ) (s : Text) → is_digit c ≡ true → skip_spaces (c ∷ s) ≡ c ∷ s
unfolding skip_spaces
skip_nothing c s d = rw (space_free c d) refl

value_of_digits :
    (c : ℕ) (s ds : Text)
    → leading_digits (c ∷ s) ≡ c ∷ ds
    → digits_value (c ∷ s) ≡ some (value_from 0 (c ∷ ds))
value_of_digits c s ds e = rw (e, digits_value) refl

-- `parseInt` of a text that begins with digits is their number.
pub parse_int-digits :
    (w s : Text)
    → IsDigits w
    → begins is_digit w ≡ true
    → begins is_digit s ≡ false
    → parse_int (w ++ s) ≡ some (pos (value_from 0 w))
unfolding parse_int
parse_int-digits [] s d b h = absurd (cc)
parse_int-digits (c ∷ w) s d b h =
    ap signed (skip_nothing c (w ++ s) d.0)
    ∙ signed_digits c (w ++ s) d.0
    ∙ ap plus (value_of_digits c (w ++ s) w (leading_digits_lem (c ∷ w) s d h).0)

-- A number is read back from its decimal print, whatever follows it but a digit.
pub parse_int-decimal :
    (n : ℕ) (s : Text) → begins is_digit s ≡ false → parse_int (decimal n ++ s) ≡ some (pos n)
parse_int-decimal n s h =
    parse_int-digits (decimal n) s (decimal-IsDigits n) (decimal-begins n) h
    ∙ ap (λ k. some (pos k)) (value_from-decimal n)
