-- ===== src/Cron/Expression.antt =====
-- packages/core/src/lib/strategies/task-creation/cron/expression.ts: the text of a cron expression
-- becomes the lists of a cron model. Ranges are replaced on fuel.
pub mod Sets
pub mod Ranges
pub mod Models
pub mod RoundTrip
pub mod Intervals
use tern_scheduler.Prelude.{
  ℕ, zero, suc, ◌+◌, ◌-◌, ◌*◌, ◌/◌, ◌%◌, Bool, true, false, not, ◌||◌, ◌&&◌, ltb, leb, ◌==◌,
  if◌then◌else◌, Option, none, some, List, [], ◌∷◌, ◌++◌, map, ℤ, pos, negsuc,
}
use tern_scheduler.Cron.Text.{
  Text, split_spaces, split_commas, after_first, leading_digits, behind_digits, value_from,
  parse_int, decimal, digits_of, begins, is_digit,
}
use tern_scheduler.Cron.Next.{CronModel}
use tern_scheduler.Cron.Next.Values.{listed}

-- replaceAsteriskWithRange
unfoldable pub replace_asterisk_with_range : ℕ → ℕ → Text → Text
replace_asterisk_with_range lo hi [] = []
replace_asterisk_with_range lo hi (c ∷ s) =
    let rest = replace_asterisk_with_range lo hi s in
    if c == b'*' then decimal lo ++ (b'-' ∷ decimal hi ++ s) else c ∷ rest

-- A match of `/(\d+)\-(\d+)/`: the text before it, its two groups and the text behind it.
pub record RangeMatch : Type 0 where
  pub before : Text
  pub first : Text
  pub last : Text
  pub behind : Text

abbrev pub range_end : Text → Text → Option RangeMatch
range_end first [] = none
range_end first (c ∷ s) =
    if (c == b'-') && begins is_digit s
    then some
        (record { before = []; first = first; last = leading_digits s; behind = behind_digits s })
    else none

-- The match at the text's start. Fewer digits than all are not followed by a dash.
unfoldable pub match_here : Text → Option RangeMatch
match_here s = if begins is_digit s then range_end (leading_digits s) (behind_digits s) else none

abbrev pub after_char : ℕ → Option RangeMatch → Option RangeMatch
after_char c none = none
after_char c (some m) = some (record m { before = c ∷ m.before })

-- `matchExpr.exec(expr)`: the leftmost match.
unfoldable pub first_match : Text → Option RangeMatch
first_match [] = none
first_match (c ∷ s) =
    let rest = first_match s in
    elim (match_here (c ∷ s)) [ some m ↦ some m | none ↦ after_char c rest ]

unfoldable pub count_up : ℕ → ℕ → List ℕ
count_up zero from = []
count_up (suc n) from = from ∷ count_up n (from + 1)

unfoldable pub join_commas : List ℕ → Text
join_commas [] = []
join_commas (n ∷ []) = decimal n
join_commas (n ∷ (m ∷ ns)) = decimal n ++ (b',' ∷ join_commas (m ∷ ns))

abbrev pub in_order : ℕ → ℕ → Text
in_order first last = join_commas (count_up (last + 1 - first) first)

-- The text with the match replaced by its numbers, the smaller one first.
abbrev pub replace_range : RangeMatch → Text
replace_range m =
    let first = value_from 0 m.first in
    let last = value_from 0 m.last in
    m.before ++ ((if ltb last first then in_order last first else in_order first last) ++ m.behind)

-- convertRange, with one round for each match.
unfoldable pub convert_range : ℕ → Text → Option Text
convert_range zero expr = none
convert_range (suc rounds) expr = elim (first_match expr) [
  | none ↦ some expr
  | some m ↦ convert_range rounds (replace_range m)
]

unfoldable pub dashes : Text → ℕ
dashes [] = 0
dashes (c ∷ s) = (if c == b'-' then 1 else 0) + dashes s

abbrev pub magnitude : ℤ → ℕ
magnitude (pos n) = n
magnitude (negsuc n) = suc n

-- `v % step === 0`; a step of 0 gives NaN.
abbrev pub divides : Option ℤ → ℤ → Bool
divides none v = false
divides (some step) v = not (magnitude step == 0) && (magnitude v % magnitude step == 0)

abbrev pub push_if : Bool → ℤ → List ℤ → List ℤ
push_if true v vs = v ∷ vs
push_if false v vs = vs

abbrev pub keep_multiple : Option ℤ → Option ℤ → List ℤ → List ℤ
keep_multiple step none rest = rest
keep_multiple step (some v) rest = push_if (divides step v) v rest

unfoldable pub multiples : Option ℤ → List Text → List ℤ
multiples step [] = []
multiples step (part ∷ parts) = keep_multiple step (parse_int part) (multiples step parts)

abbrev pub step_of : Option Text → Option ℤ
step_of none = some (pos 1)
step_of (some s) = parse_int s

-- convertStep
unfoldable pub convert_step : Text → List ℤ
convert_step expr = multiples (step_of (after_first b'/' expr)) (split_commas expr)

-- `ret.push(v)` unless `v` is out of the range or there already.
abbrev pub push_new : ℕ → ℕ → ℤ → List ℕ → List ℕ
push_new lo hi (negsuc n) ret = ret
push_new lo hi (pos n) ret =
    if leb lo n && leb n hi && not (listed n ret) then ret ++ (n ∷ []) else ret

unfoldable pub push_all : ℕ → ℕ → List ℤ → List ℕ → List ℕ
push_all lo hi [] ret = ret
push_all lo hi (v ∷ vals) ret = push_all lo hi vals (push_new lo hi v ret)

-- `sort((a, b) => a - b)`
unfoldable pub insert_number : ℕ → List ℕ → List ℕ
insert_number n [] = n ∷ []
insert_number n (x ∷ xs) =
    let rest = insert_number n xs in if leb n x then n ∷ (x ∷ xs) else x ∷ rest

unfoldable pub sort : List ℕ → List ℕ
sort [] = []
sort (x ∷ xs) = insert_number x (sort xs)

-- removeDuplicates
unfoldable pub remove_duplicates : ℕ → ℕ → List ℤ → List ℕ
remove_duplicates lo hi vals = sort (push_all lo hi vals [])

abbrev pub sunday : ℕ → ℤ
sunday n = if n == 7 then pos 0 else pos n

-- handleSundays
unfoldable pub handle_sundays : List ℕ → List ℕ
handle_sundays vals = remove_duplicates 0 6 (map sunday vals)

-- convertToModel; none when the rounds do not suffice.
unfoldable pub convert_to_model : ℕ → ℕ → Text → Option (List ℕ)
convert_to_model lo hi expr =
    let replaced = replace_asterisk_with_range lo hi expr in
    elim (convert_range (suc (dashes replaced)) replaced) [
      | none ↦ none
      | some numbers ↦ some (remove_duplicates lo hi (convert_step numbers))
    ]

pub data Conversion : Type 0 where
  converted : CronModel → Conversion
  invalid_argument : Conversion
  unconverted : Conversion

abbrev pub model_of :
    Option (List ℕ)
    → Option (List ℕ)
    → Option (List ℕ)
    → Option (List ℕ)
    → Option (List ℕ)
    → Option (List ℕ)
    → Conversion
model_of (some s) (some m) (some h) (some d) (some mo) (some w) = converted (record {
  seconds = s;
  minutes = m;
  hours = h;
  days_of_month = d;
  months = mo;
  days_of_week = handle_sundays w;
})
model_of s m h d mo w = unconverted

abbrev pub with_seconds : List Text → List Text
with_seconds (m ∷ (h ∷ (d ∷ (mo ∷ (w ∷ []))))) = (b'*' ∷ []) ∷ (m ∷ (h ∷ (d ∷ (mo ∷ (w ∷ [])))))
with_seconds parts = parts

abbrev pub convert_parts : List Text → Conversion
convert_parts (s ∷ (m ∷ (h ∷ (d ∷ (mo ∷ (w ∷ [])))))) =
    model_of (convert_to_model 0 59 s) (convert_to_model 0 59 m) (convert_to_model 0 23 h)
      (convert_to_model 1 31 d) (convert_to_model 1 12 mo) (convert_to_model 0 7 w)
convert_parts parts = invalid_argument

unfoldable pub cron_to_model : Text → Conversion
cron_to_model expression = convert_parts (with_seconds (split_spaces expression))
