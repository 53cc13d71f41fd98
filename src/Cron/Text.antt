-- ===== src/Cron/Text.antt =====
-- What packages/core/src/lib/strategies/task-creation/cron/expression.ts uses of JavaScript's texts:
-- a text is the list of its character codes.
pub mod Decimal
use Prim.Native.Char.{code}
use Prim.Native.String
use tern_scheduler.Prelude.{
  ℕ, zero, suc, ◌+◌, ◌-◌, ◌*◌, ◌/◌, ◌%◌, String, Bool, true, false, ◌||◌, ◌&&◌, ltb, leb, ◌==◌,
  if◌then◌else◌, Option, none, some, List, [], ◌∷◌, ◌++◌, ℤ, pos, negsuc,
}

abbrev pub Text : Type 0
Text = List ℕ

abbrev pub codes : String → Text
codes String.[] = []
codes (String.◌∷◌ c s) = code c ∷ codes s

abbrev pub is_digit : ℕ → Bool
is_digit c = leb b'0' c && leb c b'9'

-- `\s`, which is also the white space that `parseInt` skips.
abbrev pub is_space : ℕ → Bool
is_space c =
    (leb 9 c && leb c 13)
    || (c == 32)
    || (c == 160)
    || (c == 5760)
    || (leb 8192 c && leb c 8202)
    || (c == 8232)
    || (c == 8233)
    || (c == 8239)
    || (c == 8287)
    || (c == 12288)
    || (c == 65279)

abbrev pub begins : (ℕ → Bool) → Text → Bool
begins p [] = false
begins p (c ∷ s) = p c

abbrev pub onto_first : ℕ → List Text → List Text
onto_first c [] = (c ∷ []) ∷ []
onto_first c (w ∷ ws) = (c ∷ w) ∷ ws

-- `split(/\s+/g)`
unfoldable pub split_spaces : Text → List Text
split_spaces [] = [] ∷ []
split_spaces (c ∷ s) =
    let rest = split_spaces s in
    if is_space c then (if begins is_space s then rest else [] ∷ rest) else onto_first c rest

-- `split(',')`
unfoldable pub split_commas : Text → List Text
split_commas [] = [] ∷ []
split_commas (c ∷ s) =
    let rest = split_commas s in if c == b',' then [] ∷ rest else onto_first c rest

-- The text behind the first `c`, from `indexOf` and `substring`.
unfoldable pub after_first : ℕ → Text → Option Text
after_first c [] = none
after_first c (x ∷ s) = let rest = after_first c s in if x == c then some s else rest

-- The leading digits, and the text behind them.
unfoldable pub leading_digits : Text → Text
leading_digits [] = []
leading_digits (c ∷ s) = let rest = leading_digits s in if is_digit c then c ∷ rest else []

unfoldable pub behind_digits : Text → Text
behind_digits [] = []
behind_digits (c ∷ s) = let rest = behind_digits s in if is_digit c then rest else c ∷ s

-- The number that digits spell behind `n`.
unfoldable pub value_from : ℕ → Text → ℕ
value_from n [] = n
value_from n (c ∷ s) = value_from (n * 10 + (c - b'0')) s

unfoldable pub skip_spaces : Text → Text
skip_spaces [] = []
skip_spaces (c ∷ s) = let rest = skip_spaces s in if is_space c then rest else c ∷ s

abbrev pub digits_value : Text → Option ℕ
digits_value s = elim (leading_digits s) [ [] ↦ none | c ∷ ds ↦ some (value_from 0 (c ∷ ds)) ]

abbrev pub minus : Option ℕ → Option ℤ
minus none = none
minus (some zero) = some (pos 0)
minus (some (suc n)) = some (negsuc n)

abbrev pub plus : Option ℕ → Option ℤ
plus none = none
plus (some n) = some (pos n)

abbrev pub signed : Text → Option ℤ
signed [] = none
signed (c ∷ s) =
    if c == b'-'
    then minus (digits_value s)
    else if c == b'+'
    then plus (digits_value s)
    else plus (digits_value (c ∷ s))

-- `0 + parseInt(s, 10)`, or none for NaN.
unfoldable pub parse_int : Text → Option ℤ
parse_int s = signed (skip_spaces s)

-- `String(n)`. Each round gives one digit, and `n` has no more than n + 1 of them.
unfoldable pub digits_of : ℕ → ℕ → Text → Text
digits_of zero n out = out
digits_of (suc rounds) n out = elim (ltb n 10) [
  | true ↦ (b'0' + n) ∷ out
  | false ↦ digits_of rounds (n / 10) ((b'0' + n % 10) ∷ out)
]

abbrev pub decimal : ℕ → Text
decimal n = digits_of (suc n) n []
