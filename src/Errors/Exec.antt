-- ===== src/Errors/Exec.antt =====
-- Promise chains over a state (packages/core/src/lib): a step answers or is rejected, and what it
-- wrote before a rejection stays written.
use tern_scheduler.Errors.{Error}

pub data Result (A : Type 0) : Type 0 where
  ok : A → Result A
  err : Error → Result A

abbrev pub Exec : Type 0 → Type 0 → Type 0
Exec S A = S → Result A × S

abbrev pub pure : {S A : Type 0} → A → Exec S A
pure a s = (ok a, s)

abbrev pub raise : {S A : Type 0} → Error → Exec S A
raise e s = (err e, s)

abbrev pub continue : {S A B : Type 0} → Result A × S → (A → Exec S B) → Result B × S
continue (ok a, s) f = f a s
continue (err e, s) f = (err e, s)

infixl 5 ◌>>=◌ ◌>>◌
-- `.then(f)`
abbrev pub ◌>>=◌ : {S A B : Type 0} → Exec S A → (A → Exec S B) → Exec S B
◌>>=◌ m f s = continue (m s) f

abbrev pub ◌>>◌ : {S A B : Type 0} → Exec S A → Exec S B → Exec S B
m >> k = m >>= λ _. k

abbrev pub recover : {S A : Type 0} → Result A × S → (Error → Exec S A) → Result A × S
recover (ok a, s) f = (ok a, s)
recover (err e, s) f = f e s

-- `.catch(f)`
abbrev pub catch : {S A : Type 0} → Exec S A → (Error → Exec S A) → Exec S A
catch m f s = recover (m s) f

-- A call of a function that may throw before it returns its promise, where nothing catches what the
-- call throws.
abbrev pub called : {S A : Type 0} → Result (Exec S A) → Exec S A
called (ok m) = m
called (err e) = raise e

-- A computation that may throw, as a step of a chain.
abbrev pub lift : {S A : Type 0} → Result A → Exec S A
lift r s = (r, s)
