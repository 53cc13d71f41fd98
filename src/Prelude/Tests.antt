-- ===== src/Prelude/Tests.antt =====
-- Boolean tests, the conditional and case splits that keep their equation.
use Prim.Native.Nat.{ℕ, compare, Ordering}
use Prim.Native.String.{String}
use mathlib.Core.Path.{◌≡◌, refl}
use mathlib.Core.Logic.{◌⊎◌, ◌≢◌, inl, inr}
use mathlib.Core.Bool.{Bool, true, false}
use mathlib.Core.List.{List, [], ◌∷◌}
use mathlib.Core.Option.{Option, none, some}
use native.Mathlib.Omega.{arith}
use text.Mathlib.Text.{◌==◌ as text_eq}
use text.Mathlib.TextEquality.{eq_iff}
use text.Mathlib.TextPositions.{eq_refl}

abbrev pub ltb : ℕ → ℕ → Bool
ltb a b = elim (compare a b) [ Ordering.lt ↦ true | _ ↦ false ]

abbrev pub leb : ℕ → ℕ → Bool
leb a b = elim (compare a b) [ Ordering.gt ↦ false | _ ↦ true ]

infix 50 ◌==◌
abbrev pub ◌==◌ : ℕ → ℕ → Bool
a == b = elim (compare a b) [ Ordering.eq ↦ true | _ ↦ false ]

infix 1 if◌then◌else◌
abbrev pub if◌then◌else◌ {ℓ} : {A : Type ℓ} → Bool → A → A → A
if true then x else y = x
if false then x else y = y

pub Bool-cases : (b : Bool) → (b ≡ true) ⊎ (b ≡ false)
Bool-cases true = inl refl
Bool-cases false = inr refl

pub Option-cases {ℓ} : {A : Type ℓ} (o : Option A) → (o ≡ none) ⊎ ((a : A) × (o ≡ some a))
Option-cases none = inl refl
Option-cases (some a) = inr (a, refl)

pub List-cases {ℓ} : {A : Type ℓ} (l : List A) → (l ≡ []) ⊎ ((x : A) × (xs : List A) × (l ≡ x ∷ xs))
List-cases [] = inl refl
List-cases (x ∷ xs) = inr (x, xs, refl)

-- `===` on two strings. It is shut: proofs go by the lemmas below, tests unfold it.
unfoldable pub same : String → String → Bool
same s t = text_eq s t

pub eq_of_same : (s t : String) → same s t ≡ true → s ≡ t
unfolding same
eq_of_same s t h = (eq_iff s t).0 h

pub same_refl : (s : String) → same s s ≡ true
unfolding same
same_refl s = eq_refl s

pub same_of_ne : (s t : String) → s ≢ t → same s t ≡ false
same_of_ne s t h = elim (Bool-cases (same s t)) [
  | inl e ↦ absurd (h (eq_of_same s t e))
  | inr e ↦ e
]

pub ne_of_same : (s t : String) → same s t ≡ false → s ≢ t
ne_of_same s t h e = cc (same_refl s)

pub same_comm : (s t : String) → same s t ≡ same t s
same_comm s t = ground (arith, eq_of_same s t, eq_of_same t s, same_refl s, same_refl t)
