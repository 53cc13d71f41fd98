-- ===== src/Db/MemTable/Lookup.antt =====
-- The table as a finite map from primary keys to rows (packages/core/src/lib/datastore/memory.ts):
-- how each operation changes what a key is mapped to.
use tern_scheduler.Prelude.{
  String, Option, none, some, List, [], ◌∷◌, ◌++◌, same, if◌then◌else◌, ◌≡◌, ◌≢◌, refl, arith,
  eq_of_same, same_refl, same_of_ne, ◌∙◌,
}
use tern_scheduler.Db.Conditional.{Conditional}
use tern_scheduler.Db.MemTable.{Model, MemTable, passes, write_all, update_rows}

abbrev pub map_option {ℓ κ} : {A : Type ℓ} {B : Type κ} → (A → B) → Option A → Option B
map_option f none = none
map_option f (some a) = some (f a)

module _ (m : Model) where
  open m use {Row, Column, Change, key, read, write, write_key}

  -- The first row with the key.
  unfoldable pub lookup_rows : String → List Row → Option Row
  lookup_rows k [] = none
  lookup_rows k (r ∷ rs) = if same (key r) k then some r else lookup_rows k rs

  abbrev pub lookup : String → MemTable m → Option Row
  lookup k t = lookup_rows k t.rows

  pub write_all_key : (cs : List Change) (r : Row) → key (write_all m cs r) ≡ key r
  write_all_key [] r = refl
  write_all_key (c ∷ cs) r = write_all_key cs (write c r) ∙ write_key c r

  pub lookup_rows_key :
      (k : String) (rs : List Row) (r : Row) → lookup_rows k rs ≡ some r → key r ≡ k
  unfolding lookup_rows
  lookup_rows_key k [] r h = cc
  lookup_rows_key k (x ∷ xs) r h = ground (arith, eq_of_same (key x) k, lookup_rows_key k xs r)

  -- An update of a key that is not empty rewrites what the key is mapped to, if that meets the
  -- condition, and no other key.
  pub lookup_rows-update :
      (k j : String) (cs : List Change) (c : Option (Conditional Column)) (rs : List Row)
      → k ≢ ""
      → lookup_rows j (update_rows m (some k) cs c rs) ≡ (
          if same k j
          then map_option (λ r. if passes m c r then write_all m cs r else r) (lookup_rows j rs)
          else lookup_rows j rs)
  unfolding lookup_rows update_rows
  lookup_rows-update k j cs c [] h = ground arith
  lookup_rows-update k j cs c (r ∷ rs) h = ground (
    arith,
    lookup_rows-update k j cs c rs h,
    write_all_key cs r,
    same_of_ne k "" h,
    eq_of_same (key r) k,
    eq_of_same (key r) j,
    eq_of_same k j,
    same_refl k,
  )

  pub lookup_rows-append :
      (k : String) (r : Row) (rs : List Row)
      → lookup_rows k (rs ++ r ∷ []) ≡ elim (lookup_rows k rs) [
        | none ↦ if same (key r) k then some r else none
        | some x ↦ some x
      ]
  unfolding lookup_rows
  lookup_rows-append k r [] = ground arith
  lookup_rows-append k r (x ∷ xs) = ground (arith, lookup_rows-append k r xs)
