-- ===== src/Db/MemTable/Consistent.antt =====
-- The invariant of a table (packages/core/src/lib/datastore/memory.ts): `pks` lists exactly the
-- keys of `rows`, no key twice, none empty.
use tern_scheduler.Prelude.{
  String, false, ◌||◌, Option, some, List, [], ◌∷◌, ◌++◌, same, contains, ◌≡◌, refl, arith, inl,
  inr, Bool-cases, ap, sym, ◌∙◌, Option-cases, same_comm,
}
use tern_scheduler.Db.Conditional.{Conditional}
use tern_scheduler.Db.MemTable.{
  Model, MemTable, empty, update_rows, conditional_update, create, key_taken, delete_key,
  remove_rows, remove,
}
use tern_scheduler.Db.MemTable.Lookup.{write_all_key}

-- No text occurs twice, and the empty text not at all.
abbrev pub Distinct : List String → Type 0
Distinct [] = Unit
Distinct (k ∷ ks) = (contains k ks ≡ false) × (same k "" ≡ false) × Distinct ks

contains-append :
    (k x : String) (ks : List String) → contains k (ks ++ x ∷ []) ≡ (contains k ks || same x k)
unfolding contains
contains-append k x [] = ground arith
contains-append k x (y ∷ ys) = ground (arith, contains-append k x ys)

Distinct-append :
    (x : String) (ks : List String)
    → contains x ks ≡ false
    → same x "" ≡ false
    → Distinct ks
    → Distinct (ks ++ x ∷ [])
unfolding contains
Distinct-append x [] hx he d = (refl, he, tt)
Distinct-append x (y ∷ ys) hx he d = (
  rw (contains-append y x ys) (ground (arith, same_comm x y)),
  d.1,
  Distinct-append x ys (ground arith) he d.2,
)

contains-delete :
    (k x : String) (ks : List String) → contains k ks ≡ false → contains k (delete_key x ks) ≡ false
unfolding contains delete_key
contains-delete k x [] h = refl
contains-delete k x (y ∷ ys) h = ground (arith, contains-delete k x ys)

Distinct-delete : (x : String) (ks : List String) → Distinct ks → Distinct (delete_key x ks)
unfolding delete_key
Distinct-delete x [] d = tt
Distinct-delete x (y ∷ ys) d = elim (Bool-cases (same y x)) [
  | inl e ↦ rw e d.2
  | inr e ↦ rw e (contains-delete y x ys d.0, d.1, Distinct-delete x ys d.2)
]

module _ (m : Model) where
  open m use {Row, Column, Change, key, read, write, write_key}

  abbrev pub keys : List Row → List String
  keys [] = []
  keys (r ∷ rs) = key r ∷ keys rs

  pub record IsConsistent (t : MemTable m) : Type 0 where
    pub listed : t.pks ≡ keys t.rows
    pub distinct : Distinct t.pks

  pub empty-IsConsistent : IsConsistent (empty m)
  empty-IsConsistent = record { listed = refl; distinct = tt }

  keys-update :
      (k : Option String) (cs : List Change) (c : Option (Conditional Column)) (rs : List Row)
      → keys (update_rows m k cs c rs) ≡ keys rs
  unfolding update_rows
  keys-update k cs c [] = refl
  keys-update k cs c (r ∷ rs) = ground (arith, keys-update k cs c rs, write_all_key m cs r)

  keys-append : (r : Row) (rs : List Row) → keys (rs ++ r ∷ []) ≡ keys rs ++ key r ∷ []
  keys-append r [] = refl
  keys-append r (x ∷ xs) = ap (λ l. key x ∷ l) (keys-append r xs)

  keys-remove :
      (k : String) (c : Option (Conditional Column)) (rs kept : List Row)
      → remove_rows m k c rs ≡ some kept
      → keys kept ≡ delete_key k (keys rs)
  unfolding remove_rows delete_key
  keys-remove k c [] kept h = cc
  keys-remove k c (r ∷ rs) kept h = elim (Option-cases (remove_rows m k c rs)) [
    | inl e ↦ ground arith
    | inr (l, e) ↦ ground (arith, keys-remove k c rs l e)
  ]

  pub update-IsConsistent :
      (k : String) (cs : List Change) (c : Option (Conditional Column)) (t : MemTable m)
      → IsConsistent t
      → IsConsistent (conditional_update m k cs c t).1
  unfolding conditional_update
  update-IsConsistent k cs c t h = record {
    listed = h.listed ∙ sym (keys-update (some k) cs c t.rows);
    distinct = h.distinct;
  }

  pub create-IsConsistent :
      (r : Row) (t : MemTable m) → IsConsistent t → IsConsistent (create m r t).1
  unfolding create key_taken
  create-IsConsistent r t h = elim (Bool-cases (same (key r) "" || key_taken (key r) t.pks)) [
    | inl e ↦ rw e h
    | inr e ↦ rw e (record {
      listed = rw h.listed (sym (keys-append r t.rows));
      distinct = Distinct-append (key r) t.pks (ground arith) (ground arith) h.distinct;
    })
  ]

  pub remove-IsConsistent :
      (k : String) (c : Option (Conditional Column)) (t : MemTable m)
      → IsConsistent t
      → IsConsistent (remove m k c t).1
  unfolding remove
  remove-IsConsistent k c t h = elim (Option-cases (remove_rows m k c t.rows)) [
    | inl e ↦ rw e h
    | inr (kept, e) ↦ rw e (record {
      listed = ap (delete_key k) h.listed ∙ sym (keys-remove k c t.rows kept e);
      distinct = Distinct-delete k t.pks h.distinct;
    })
  ]
