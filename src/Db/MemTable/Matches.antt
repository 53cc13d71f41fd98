-- ===== src/Db/MemTable/Matches.antt =====
-- What the answers of a table say of its map from keys to rows
-- (packages/core/src/lib/datastore/memory.ts): counts, the search by key, and removal.
use tern_scheduler.Prelude.{
  ℕ, String, Bool, false, ◌&&◌, Option, none, some, List, [], ◌∷◌, same, contains, length, take,
  filter, if◌then◌else◌, ◌≡◌, ◌≢◌, refl, arith, inl, inr, Bool-cases, eq_of_same, same_refl,
  same_of_ne, Option-cases,
}
use tern_scheduler.Db.Conditional.{Conditional}
use tern_scheduler.Db.MemTable.{
  Model, MemTable, passes, row_matches, conditional_update, find, remove_rows, remove, removed,
}
use tern_scheduler.Db.MemTable.Lookup.{lookup_rows, lookup}
use tern_scheduler.Db.MemTable.Consistent.{Distinct, keys, IsConsistent}

abbrev pub to_list {ℓ} : {A : Type ℓ} → Option A → List A
to_list none = []
to_list (some a) = a ∷ []

module _ (m : Model) where
  open m use {Row, Column, Change, key, read, write, write_key}

  -- Whether there is a row, and it passes.
  abbrev pub passing : Option (Conditional Column) → Option Row → Bool
  passing c none = false
  passing c (some r) = passes m c r

  -- The count that an update or a removal of one key answers.
  abbrev pub hits : Option (Conditional Column) → Option Row → ℕ
  hits c o = if passing c o then 1 else 0

  pub lookup_rows-absent :
      (k : String) (rs : List Row) → contains k (keys m rs) ≡ false → lookup_rows m k rs ≡ none
  unfolding lookup_rows contains
  lookup_rows-absent k [] h = refl
  lookup_rows-absent k (r ∷ rs) h = ground (arith, lookup_rows-absent k rs)

  contains-of-lookup :
      (k : String) (rs : List Row) → lookup_rows m k rs ≡ none → contains k (keys m rs) ≡ false
  unfolding lookup_rows contains
  contains-of-lookup k [] h = refl
  contains-of-lookup k (r ∷ rs) h = ground (arith, contains-of-lookup k rs)

  no_matches :
      (k : String) (c : Option (Conditional Column)) (rs : List Row)
      → k ≢ ""
      → contains k (keys m rs) ≡ false
      → filter (row_matches m (some k) c) rs ≡ []
  unfolding contains
  no_matches k c [] n h = refl
  no_matches k c (r ∷ rs) n h = ground (arith, no_matches k c rs n, same_of_ne k "" n)

  filter-matches :
      (k : String) (c : Option (Conditional Column)) (rs : List Row)
      → k ≢ ""
      → Distinct (keys m rs)
      → length (filter (row_matches m (some k) c) rs) ≡ hits c (lookup_rows m k rs)
  unfolding lookup_rows
  filter-matches k c [] n d = refl
  filter-matches k c (r ∷ rs) n d = elim (Bool-cases (same (key r) k)) [
    | inl e ↦ ground (arith, same_of_ne k "" n, no_matches k c rs n, eq_of_same (key r) k)
    | inr e ↦ ground (arith, same_of_ne k "" n, filter-matches k c rs n d.2)
  ]

  -- In a consistent table an update of a key that is not empty counts one row or none: the row of
  -- its key, if that meets the condition.
  pub count-conditional_update :
      (k : String) (cs : List Change) (c : Option (Conditional Column)) (t : MemTable m)
      → k ≢ ""
      → IsConsistent m t
      → (conditional_update m k cs c t).0 ≡ hits c (lookup m k t)
  unfolding conditional_update
  count-conditional_update k cs c t n h = filter-matches k c t.rows n (rw h.listed at h.distinct)

  filter-key :
      (k : String) (c : Option (Conditional Column)) (rs : List Row)
      → ((r : Row) → passes m c r ≡ same (key r) k)
      → take 1 (filter (row_matches m none c) rs) ≡ to_list (lookup_rows m k rs)
  unfolding lookup_rows
  filter-key k c [] h = refl
  filter-key k c (r ∷ rs) h = elim (Bool-cases (same (key r) k)) [
    | inl e ↦ rw (h r, e)
    | inr e ↦ rw (h r, e) (filter-key k c rs h)
  ]

  -- `find(0, 1, pkEquals(k))` answers with the row of the key.
  pub find-key :
      (k : String) (c : Option (Conditional Column)) (t : MemTable m)
      → ((r : Row) → passes m c r ≡ same (key r) k)
      → find m 0 1 c t ≡ to_list (lookup m k t)
  unfolding find
  find-key k c t h = filter-key k c t.rows h

  lookup-remove_rows :
      (k j : String) (c : Option (Conditional Column)) (rs kept : List Row)
      → Distinct (keys m rs)
      → remove_rows m k c rs ≡ some kept
      → lookup_rows m j kept ≡ (if same k j then none else lookup_rows m j rs)
  unfolding lookup_rows remove_rows
  lookup-remove_rows k j c [] kept d h = cc
  lookup-remove_rows k j c (r ∷ rs) kept d h = elim (Option-cases (remove_rows m k c rs)) [
    | inl e ↦ ground (
      arith,
      lookup_rows-absent j rs,
      eq_of_same (key r) k,
      eq_of_same (key r) j,
      eq_of_same k j,
      same_refl k,
    )
    | inr (l, e) ↦ ground (
      arith,
      lookup-remove_rows k j c rs l d.2 e,
      lookup_rows-absent j rs,
      eq_of_same (key r) k,
      eq_of_same (key r) j,
      eq_of_same k j,
      same_refl k,
    )
  ]

  count-remove_rows :
      (k : String) (c : Option (Conditional Column)) (rs : List Row) (t : MemTable m)
      → (removed m k t (remove_rows m k c rs)).0 ≡ hits c (lookup_rows m k rs)
  unfolding lookup_rows remove_rows
  count-remove_rows k c [] t = refl
  count-remove_rows k c (r ∷ rs) t = ground (arith, count-remove_rows k c rs t)

  -- A removal counts one row or none: the row of its key, if that passes.
  pub count-remove :
      (k : String) (c : Option (Conditional Column)) (t : MemTable m)
      → (remove m k c t).0 ≡ hits c (lookup m k t)
  unfolding remove
  count-remove k c t = count-remove_rows k c t.rows t

  -- In a consistent table a removal unmaps its key if the row of that key meets the condition, and
  -- no other key.
  pub lookup-remove :
      (k j : String) (c : Option (Conditional Column)) (t : MemTable m)
      → IsConsistent m t
      → lookup m j (remove m k c t).1
        ≡ (if passing c (lookup m k t) && same k j then none else lookup m j t)
  unfolding remove
  lookup-remove k j c t h = elim (Option-cases (remove_rows m k c t.rows)) [
    | inl e ↦ ground (arith, count-remove_rows k c t.rows t)
    | inr (kept, e) ↦ ground (
      arith,
      count-remove_rows k c t.rows t,
      lookup-remove_rows k j c t.rows kept (rw h.listed at h.distinct) e,
    )
  ]
