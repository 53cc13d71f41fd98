-- ===== src/Cron/Expression/RoundTrip.antt =====
-- convertToModel of packages/core/src/lib/strategies/task-creation/cron/expression.ts on printed
-- lists of numbers.
use tern_scheduler.Prelude.{
  ℕ, suc, ◌≡◌, refl, arith, true, false, ◌||◌, ◌&&◌, leb, ◌==◌, Option, none, some, List, [], ◌∷◌,
  ◌++◌, map, All, ap, sym, ◌∙◌, pos, append-nil,
}
use tern_scheduler.Cron.Text.{
  Text, is_digit, split_commas, onto_first, after_first, parse_int, skip_spaces, decimal,
}
use tern_scheduler.Cron.Text.Decimal.{IsDigits, decimal-IsDigits, parse_int-decimal}
use tern_scheduler.Cron.Expression.{
  replace_asterisk_with_range, RangeMatch, first_match, join_commas, convert_range, dashes, divides,
  multiples, convert_step, remove_duplicates, convert_to_model,
}
use tern_scheduler.Cron.Expression.Sets.{
  listed_ℤ, IsAscending, listed-remove_duplicates, remove_duplicates-IsAscending, same_numbers,
}
use tern_scheduler.Cron.Expression.Ranges.{LosesDash, first_match-LosesDash, dashes-join_commas}
use tern_scheduler.Cron.Next.Values.{listed, Within, listed-Within}

-- The characters of a printed list.
abbrev IsPrinted : Text → Type 0
IsPrinted = All (λ c. (is_digit c || (c == b',')) ≡ true)

digits-IsPrinted : (w s : Text) → IsDigits w → IsPrinted s → IsPrinted (w ++ s)
digits-IsPrinted [] s d h = h
digits-IsPrinted (c ∷ w) s d h = (rw (d.0) refl, digits-IsPrinted w s d.1 h)

join_commas-IsPrinted : (ns : List ℕ) → IsPrinted (join_commas ns)
unfolding join_commas
join_commas-IsPrinted [] = tt
join_commas-IsPrinted (n ∷ []) =
    rw (sym (append-nil (decimal n))) (digits-IsPrinted (decimal n) [] (decimal-IsDigits n) tt)
join_commas-IsPrinted (n ∷ (m ∷ ns)) =
    digits-IsPrinted (decimal n) _ (decimal-IsDigits n) (refl, join_commas-IsPrinted (m ∷ ns))

-- Nothing in it is replaced.
pub no_asterisk :
    (lo hi : ℕ) (s : Text)
    → All (λ c. (c == b'*') ≡ false) s
    → replace_asterisk_with_range lo hi s ≡ s
unfolding replace_asterisk_with_range
no_asterisk lo hi [] h = refl
no_asterisk lo hi (c ∷ s) h = rw (h.0) (ap (λ t. c ∷ t) (no_asterisk lo hi s h.1))

printed_plain : (s : Text) → IsPrinted s → All (λ c. (c == b'*') ≡ false) s
printed_plain [] h = tt
printed_plain (c ∷ s) h = (ground (arith, h.0), printed_plain s h.1)

no_slash : (s : Text) → IsPrinted s → after_first b'/' s ≡ none
unfolding after_first
no_slash [] h = refl
no_slash (c ∷ s) h = let e : (c == b'/') ≡ false = ground (arith, h.0) in rw e (no_slash s h.1)

no_match_of : (s : Text) (o : Option RangeMatch) → LosesDash s o → dashes s ≡ 0 → o ≡ none
no_match_of s none l e = refl
no_match_of s (some m) l e = absurd (omega (arith, l, e))

no_range : (rounds : ℕ) (s : Text) → dashes s ≡ 0 → convert_range (suc rounds) s ≡ some s
unfolding convert_range
no_range rounds s e =
    rw (no_match_of s (first_match s) (first_match-LosesDash s) e, convert_range) refl

-- The parts between the commas are the numbers.
split_word : (w s : Text) → IsDigits w → split_commas (w ++ (b',' ∷ s)) ≡ w ∷ split_commas s
unfolding split_commas
split_word [] s d = refl
split_word (c ∷ w) s d =
    let e : (c == b',') ≡ false = ground (arith, d.0) in
    rw e (ap (onto_first c) (split_word w s d.1))

split_last : (w : Text) → IsDigits w → split_commas w ≡ w ∷ []
unfolding split_commas
split_last [] d = refl
split_last (c ∷ w) d =
    let e : (c == b',') ≡ false = ground (arith, d.0) in rw e (ap (onto_first c) (split_last w d.1))

split-join : (n : ℕ) (ns : List ℕ) → split_commas (join_commas (n ∷ ns)) ≡ map decimal (n ∷ ns)
unfolding join_commas
split-join n [] = split_last (decimal n) (decimal-IsDigits n)
split-join n (m ∷ ns) =
    split_word (decimal n) (join_commas (m ∷ ns)) (decimal-IsDigits n)
    ∙ ap (λ ws. decimal n ∷ ws) (split-join m ns)

reads : (n : ℕ) → parse_int (decimal n) ≡ some (pos n)
reads n = ap parse_int (sym (append-nil (decimal n))) ∙ parse_int-decimal n [] refl

ones : (n : ℕ) → divides (some (pos 1)) (pos n) ≡ true
ones n = ground arith

multiples_of_one : (ns : List ℕ) → multiples (some (pos 1)) (map decimal ns) ≡ map pos ns
unfolding multiples
multiples_of_one [] = refl
multiples_of_one (n ∷ ns) = rw (reads n, ones n, multiples_of_one ns) refl

listed_ℤ-pos : (v : ℕ) (ns : List ℕ) → listed_ℤ v (map pos ns) ≡ listed v ns
listed_ℤ-pos v [] = refl
listed_ℤ-pos v (n ∷ ns) = ap (λ b. (v == n) || b) (listed_ℤ-pos v ns)

nothing_to_remove :
    (lo hi : ℕ) (ns : List ℕ)
    → Within lo hi ns
    → IsAscending ns
    → remove_duplicates lo hi (map pos ns) ≡ ns
nothing_to_remove lo hi ns w a =
    same_numbers (remove_duplicates lo hi (map pos ns)) ns
      (remove_duplicates-IsAscending lo hi (map pos ns)) a
      (λ v.
        listed-remove_duplicates lo hi v (map pos ns)
        ∙ ap (λ b. leb lo v && leb v hi && b) (listed_ℤ-pos v ns)
        ∙ ground (arith, listed-Within lo hi v ns w))

step_one :
    (ns : List ℕ)
    → convert_step (join_commas ns) ≡ multiples (some (pos 1)) (split_commas (join_commas ns))
unfolding convert_step
step_one ns = rw (no_slash (join_commas ns) (join_commas-IsPrinted ns)) refl

reads_nothing : convert_step (join_commas []) ≡ []
unfolding convert_step join_commas after_first split_commas multiples parse_int skip_spaces
reads_nothing = refl

reads_numbers : (ns : List ℕ) → convert_step (join_commas ns) ≡ map pos ns
reads_numbers [] = reads_nothing
reads_numbers (n ∷ ns) =
    step_one (n ∷ ns) ∙ ap (multiples (some (pos 1))) (split-join n ns) ∙ multiples_of_one (n ∷ ns)

-- What is left of a range's text when only numbers and commas are.
pub numbers_lem :
    (lo hi rounds : ℕ) (ns : List ℕ)
    → Within lo hi ns
    → IsAscending ns
    → elim (convert_range (suc rounds) (join_commas ns)) [
      | none ↦ none
      | some numbers ↦ some (remove_duplicates lo hi (convert_step numbers))
    ]
      ≡ some ns
numbers_lem lo hi rounds ns w a =
    rw
      (
        no_range rounds (join_commas ns) (dashes-join_commas ns),
        reads_numbers ns,
        nothing_to_remove lo hi ns w a,
      )
      refl

-- An increasing list of numbers of the range, written with commas between them, is read back.
pub convert_to_model-join_commas :
    (lo hi : ℕ) (ns : List ℕ)
    → Within lo hi ns
    → IsAscending ns
    → convert_to_model lo hi (join_commas ns) ≡ some ns
unfolding convert_to_model
convert_to_model-join_commas lo hi ns w a =
    rw
      (
        no_asterisk lo hi (join_commas ns)
            (printed_plain (join_commas ns) (join_commas-IsPrinted ns)),
        convert_to_model,
      )
      (numbers_lem lo hi _ ns w a)
