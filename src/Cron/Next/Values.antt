-- ===== src/Cron/Next/Values.antt =====
-- findNext of packages/core/src/lib/strategies/task-creation/cron/next.ts, and what a list of a cron
-- model holds.
use tern_scheduler.Prelude.{
  ℕ, ◌≤◌, ◌<◌, ◌≡◌, arith, Bool, true, false, ◌||◌, leb, ◌==◌, Option, none, some, List, [], ◌∷◌,
  All, Bool-cases, inl, inr,
}
use tern_scheduler.Cron.Next.{find_next}

abbrev pub listed : ℕ → List ℕ → Bool
listed n [] = false
listed n (x ∷ xs) = (n == x) || listed n xs

pub head_listed : (x : ℕ) (xs : List ℕ) → listed x (x ∷ xs) ≡ true
head_listed x xs = ground arith

abbrev pub IsIncreasing : List ℕ → Type 0
IsIncreasing [] = Unit
IsIncreasing (x ∷ xs) = All (λ y. x ≤ y) xs × IsIncreasing xs

-- The least value of the list from `value` on, or that there is none.
abbrev pub IsLeastFrom : ℕ → List ℕ → Option ℕ → Type 0
IsLeastFrom value range none = (i : ℕ) → listed i range ≡ true → i < value
IsLeastFrom value range (some n) =
    (listed n range ≡ true) × (value ≤ n) × ((i : ℕ) → listed i range ≡ true → value ≤ i → n ≤ i)

listed-All : (x i : ℕ) (xs : List ℕ) → All (λ y. x ≤ y) xs → listed i xs ≡ true → x ≤ i
listed-All x i [] h l = cc
listed-All x i (y ∷ ys) h l = ground (arith, listed-All x i ys h.1)

skip :
    (value x : ℕ) (xs : List ℕ) (o : Option ℕ)
    → leb value x ≡ false
    → IsLeastFrom value xs o
    → IsLeastFrom value (x ∷ xs) o
skip value x xs none e h = λ i l. ground (arith, h i)
skip value x xs (some n) e h = (ground arith, h.1, λ i l p. ground (arith, h.2 i))

-- On a list in increasing order, `findNext` finds the least value from the given one on, and
-- reports that there is none exactly when all values are below it.
pub find_next-IsLeastFrom :
    (value : ℕ) (range : List ℕ)
    → IsIncreasing range
    → IsLeastFrom value range (find_next value range)
unfolding find_next
find_next-IsLeastFrom value [] up = λ i l. cc
find_next-IsLeastFrom value (x ∷ xs) up = elim (Bool-cases (leb value x)) [
  | inl e ↦ rw e (ground arith, ground arith, λ i l h. ground (arith, listed-All x i xs up.0))
  | inr e ↦ rw e (skip value x xs (find_next value xs) e (find_next-IsLeastFrom value xs up.1))
]

pub find_next_lem :
    (value n : ℕ) (range : List ℕ)
    → find_next value range ≡ some n
    → (value ≤ n) × (listed n range ≡ true)
unfolding find_next
find_next_lem value n [] e = cc
find_next_lem value n (x ∷ xs) e = ground (arith, find_next_lem value n xs)

-- The value that was found is found again from itself on.
pub find_next_again :
    (value n : ℕ) (range : List ℕ) → find_next value range ≡ some n → find_next n range ≡ some n
unfolding find_next
find_next_again value n [] e = cc
find_next_again value n (x ∷ xs) e =
    ground (arith, find_next_lem value n xs, find_next_again value n xs)

pub find_next_listed :
    (n : ℕ) (range : List ℕ)
    → IsIncreasing range
    → listed n range ≡ true
    → find_next n range ≡ some n
unfolding find_next
find_next_listed n [] up l = cc
find_next_listed n (x ∷ xs) up l =
    ground (arith, find_next_listed n xs up.1, listed-All x n xs up.0)

-- The values of the list lie within the bounds.
abbrev pub Within : ℕ → ℕ → List ℕ → Type 0
Within lo hi = All (λ n. (lo ≤ n) × (n ≤ hi))

pub listed-Within :
    (lo hi n : ℕ) (xs : List ℕ) → Within lo hi xs → listed n xs ≡ true → (lo ≤ n) × (n ≤ hi)
listed-Within lo hi n [] h l = cc
listed-Within lo hi n (x ∷ xs) h l = ground (arith, listed-Within lo hi n xs h.1)
