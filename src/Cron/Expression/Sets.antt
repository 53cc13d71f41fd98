-- ===== src/Cron/Expression/Sets.antt =====
-- removeDuplicates and handleSundays of
-- packages/core/src/lib/strategies/task-creation/cron/expression.ts as sets of numbers.
use tern_scheduler.Prelude.{
  ℕ, ◌≤◌, ◌<◌, ◌≡◌, refl, arith, Bool, true, false, not, ◌||◌, ◌&&◌, leb, ◌==◌, List, [], ◌∷◌, ◌++◌,
  map, All, Bool-cases, inl, inr, ap, sym, subst, ◌∙◌, ℤ, pos, negsuc,
}
use tern_scheduler.Cron.Expression.{
  push_new, push_all, insert_number, sort, remove_duplicates, sunday, handle_sundays,
}
use tern_scheduler.Cron.Next.Values.{listed, IsIncreasing, Within}

abbrev pub listed_ℤ : ℕ → List ℤ → Bool
listed_ℤ n [] = false
listed_ℤ n (pos m ∷ vs) = (n == m) || listed_ℤ n vs
listed_ℤ n (negsuc m ∷ vs) = listed_ℤ n vs

-- In increasing order, each number once.
abbrev pub IsAscending : List ℕ → Type 0
IsAscending [] = Unit
IsAscending (x ∷ xs) = All (λ y. x < y) xs × IsAscending xs

abbrev pub IsDistinct : List ℕ → Type 0
IsDistinct [] = Unit
IsDistinct (x ∷ xs) = (listed x xs ≡ false) × IsDistinct xs

listed-insert_number :
    (v n : ℕ) (xs : List ℕ) → listed v (insert_number n xs) ≡ ((v == n) || listed v xs)
unfolding insert_number
listed-insert_number v n [] = refl
listed-insert_number v n (x ∷ xs) = ground (arith, listed-insert_number v n xs)

listed-sort : (v : ℕ) (xs : List ℕ) → listed v (sort xs) ≡ listed v xs
unfolding sort
listed-sort v [] = refl
listed-sort v (x ∷ xs) =
    listed-insert_number v x (sort xs) ∙ ap (λ b. (v == x) || b) (listed-sort v xs)

All-insert_number :
    (x n : ℕ) (xs : List ℕ) → x < n → All (λ y. x < y) xs → All (λ y. x < y) (insert_number n xs)
unfolding insert_number
All-insert_number x n [] h a = (h, tt)
All-insert_number x n (y ∷ ys) h a = elim (Bool-cases (leb n y)) [
  | inl e ↦ rw e (h, a)
  | inr e ↦ rw e (a.0, All-insert_number x n ys h a.1)
]

below-All : (n x : ℕ) (xs : List ℕ) → n ≤ x → All (λ y. x < y) xs → All (λ y. n < y) xs
below-All n x [] h a = tt
below-All n x (y ∷ ys) h a = (omega (arith, a.0), below-All n x ys h a.1)

insert_number-IsAscending :
    (n : ℕ) (xs : List ℕ) → listed n xs ≡ false → IsAscending xs → IsAscending (insert_number n xs)
unfolding insert_number
insert_number-IsAscending n [] l a = (tt, tt)
insert_number-IsAscending n (x ∷ xs) l a = elim (Bool-cases (leb n x)) [
  | inl e ↦
      let lt : n < x = ground (arith, e, l) in rw e ((lt, below-All n x xs (omega arith) a.0), a)
  | inr e ↦ rw e (
    All-insert_number x n xs (ground (arith, e)) a.0,
    insert_number-IsAscending n xs (ground (arith, l)) a.1,
  )
]

sort-IsAscending : (xs : List ℕ) → IsDistinct xs → IsAscending (sort xs)
unfolding sort
sort-IsAscending [] d = tt
sort-IsAscending (x ∷ xs) d =
    insert_number-IsAscending x (sort xs) (listed-sort x xs ∙ d.0) (sort-IsAscending xs d.1)

pub listed-append :
    (v : ℕ) (xs : List ℕ) (n : ℕ) → listed v (xs ++ (n ∷ [])) ≡ (listed v xs || (v == n))
listed-append v [] n = ground arith
listed-append v (x ∷ xs) n = ground (arith, listed-append v xs n)

pub append-IsDistinct :
    (xs : List ℕ) (n : ℕ) → listed n xs ≡ false → IsDistinct xs → IsDistinct (xs ++ (n ∷ []))
append-IsDistinct [] n l d = (refl, tt)
append-IsDistinct (x ∷ xs) n l d =
    (ground (arith, listed-append x xs n, l, d.0), append-IsDistinct xs n (ground (arith, l)) d.1)

push_new-IsDistinct :
    (lo hi : ℕ) (v : ℤ) (ret : List ℕ) → IsDistinct ret → IsDistinct (push_new lo hi v ret)
push_new-IsDistinct lo hi (negsuc n) ret d = d
push_new-IsDistinct lo hi (pos n) ret d =
    elim (Bool-cases (leb lo n && leb n hi && not (listed n ret))) [
      | inl e ↦ rw e (append-IsDistinct ret n (ground (arith, e)) d)
      | inr e ↦ rw e d
    ]

push_all-IsDistinct :
    (lo hi : ℕ) (vals : List ℤ) (ret : List ℕ)
    → IsDistinct ret
    → IsDistinct (push_all lo hi vals ret)
unfolding push_all
push_all-IsDistinct lo hi [] ret d = d
push_all-IsDistinct lo hi (v ∷ vals) ret d =
    push_all-IsDistinct lo hi vals (push_new lo hi v ret) (push_new-IsDistinct lo hi v ret d)

listed-push_new :
    (lo hi v n : ℕ) (ret : List ℕ)
    → listed v (push_new lo hi (pos n) ret) ≡ (listed v ret || (leb lo v && leb v hi && (v == n)))
listed-push_new lo hi v n ret = elim (Bool-cases (v == n)) [
  | inl e ↦
      let same : v ≡ n = ground (arith, e) in rw (sym same) (ground (arith, listed-append v ret v))
  | inr e ↦ ground (arith, e, listed-append v ret n)
]

listed-push_all :
    (lo hi v : ℕ) (vals : List ℤ) (ret : List ℕ)
    → listed v (push_all lo hi vals ret)
      ≡ (listed v ret || (leb lo v && leb v hi && listed_ℤ v vals))
unfolding push_all
listed-push_all lo hi v [] ret = ground arith
listed-push_all lo hi v (negsuc n ∷ vals) ret = listed-push_all lo hi v vals ret
listed-push_all lo hi v (pos n ∷ vals) ret = ground (
  arith,
  listed-push_all lo hi v vals (push_new lo hi (pos n) ret),
  listed-push_new lo hi v n ret,
)

-- A number is in the result exactly when it is in the range and among the values.
pub listed-remove_duplicates :
    (lo hi v : ℕ) (vals : List ℤ)
    → listed v (remove_duplicates lo hi vals) ≡ (leb lo v && leb v hi && listed_ℤ v vals)
unfolding remove_duplicates
listed-remove_duplicates lo hi v vals =
    listed-sort v (push_all lo hi vals []) ∙ listed-push_all lo hi v vals []

pub remove_duplicates-IsAscending :
    (lo hi : ℕ) (vals : List ℤ) → IsAscending (remove_duplicates lo hi vals)
unfolding remove_duplicates
remove_duplicates-IsAscending lo hi vals = sort-IsAscending _ (push_all-IsDistinct lo hi vals [] tt)

listed-sunday :
    (v : ℕ) (vals : List ℕ)
    → v ≤ 6
    → listed_ℤ v (map sunday vals) ≡ (listed v vals || ((v == 0) && listed 7 vals))
listed-sunday v [] h = ground arith
listed-sunday v (x ∷ xs) h = elim (Bool-cases (x == 7)) [
  | inl e ↦ let seven : x ≡ 7 = ground (arith, e) in rw seven (ground (arith, listed-sunday v xs h))
  | inr e ↦ ground (arith, e, listed-sunday v xs h)
]

-- The days of the week from 0 to 6, with 0 for each 7.
pub listed-handle_sundays :
    (v : ℕ) (vals : List ℕ)
    → listed v (handle_sundays vals) ≡ (leb v 6 && (listed v vals || ((v == 0) && listed 7 vals)))
unfolding handle_sundays
listed-handle_sundays v vals = elim (Bool-cases (leb v 6)) [
  | inl e ↦
      listed-remove_duplicates 0 6 v (map sunday vals)
      ∙ ground (arith, e, listed-sunday v vals (ground (arith, e)))
  | inr e ↦ listed-remove_duplicates 0 6 v (map sunday vals) ∙ ground (arith, e)
]

pub IsAscending-IsIncreasing : (xs : List ℕ) → IsAscending xs → IsIncreasing xs
IsAscending-IsIncreasing [] a = tt
IsAscending-IsIncreasing (x ∷ xs) a = (at_least x xs a.0, IsAscending-IsIncreasing xs a.1)
  where
    at_least : (x : ℕ) (xs : List ℕ) → All (λ y. x < y) xs → All (λ y. x ≤ y) xs
    at_least x [] h = tt
    at_least x (y ∷ ys) h = (omega (arith, h.0), at_least x ys h.1)

pub all-Within :
    (lo hi : ℕ) (xs : List ℕ)
    → ((v : ℕ) → listed v xs ≡ true → (lo ≤ v) × (v ≤ hi))
    → Within lo hi xs
all-Within lo hi [] h = tt
all-Within lo hi (x ∷ xs) h =
    (h x (ground arith), all-Within lo hi xs (λ v l. h v (ground (arith, l))))

pub remove_duplicates-Within :
    (lo hi : ℕ) (vals : List ℤ) → Within lo hi (remove_duplicates lo hi vals)
remove_duplicates-Within lo hi vals =
    all-Within lo hi _ (λ v l. ground (arith, l, listed-remove_duplicates lo hi v vals))

-- Two increasing lists with the same numbers are the same.
above-All : (v : ℕ) (xs : List ℕ) → All (λ y. v < y) xs → listed v xs ≡ false
above-All v [] h = refl
above-All v (x ∷ xs) h = ground (arith, h.0, above-All v xs h.1)

listed_above : (v x : ℕ) (xs : List ℕ) → All (λ y. v < y) xs → listed x xs ≡ true → v < x
listed_above v x [] h l = absurd (cc)
listed_above v x (y ∷ ys) h l = ground (arith, h.0, l, listed_above v x ys h.1)

same_head :
    (x y : ℕ) (xs ys : List ℕ)
    → All (λ z. x < z) xs
    → All (λ z. y < z) ys
    → ((v : ℕ) → listed v (x ∷ xs) ≡ listed v (y ∷ ys))
    → x ≡ y
same_head x y xs ys a b h = ground (arith, h x, h y, listed_above y x ys b, listed_above x y xs a)

same_tail :
    (v x : ℕ) (xs ys : List ℕ)
    → All (λ z. x < z) xs
    → All (λ z. x < z) ys
    → listed v (x ∷ xs) ≡ listed v (x ∷ ys)
    → listed v xs ≡ listed v ys
same_tail v x xs ys a b h = elim (Bool-cases (v == x)) [
  | inl e ↦
      let same : v ≡ x = ground (arith, e) in rw (same, above-All x xs a, above-All x ys b) refl
  | inr e ↦ ground (arith, e, h)
]

pub same_numbers :
    (xs ys : List ℕ)
    → IsAscending xs
    → IsAscending ys
    → ((v : ℕ) → listed v xs ≡ listed v ys)
    → xs ≡ ys
same_numbers [] [] a b h = refl
same_numbers [] (y ∷ ys) a b h = absurd (ground (arith, h y))
same_numbers (x ∷ xs) [] a b h = absurd (ground (arith, h x))
same_numbers (x ∷ xs) (y ∷ ys) a b h =
    let e = same_head x y xs ys a.0 b.0 h in
    let above : All (λ z. x < z) ys = rw e b.0 in
    let k : (v : ℕ) → listed v (x ∷ xs) ≡ listed v (x ∷ ys) =
      λ v. subst (λ z. listed v (x ∷ xs) ≡ listed v (z ∷ ys)) (sym e) (h v) in
    rw (sym e)
      (ap (λ l. x ∷ l) (same_numbers xs ys a.1 b.1 (λ v. same_tail v x xs ys a.0 above (k v))))
