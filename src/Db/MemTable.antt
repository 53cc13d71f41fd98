-- ===== src/Db/MemTable.antt =====
-- class MemTable of packages/core/src/lib/datastore/memory.ts. A method returns its answer and the
-- new table. `rows` holds the rows in the order of their creation; `pks` holds the own keys of the
-- source's object of that name. The laws of the table are in the modules below.
pub mod Lookup
pub mod Consistent
pub mod Matches
use tern_scheduler.Prelude.{
  ℕ, suc, String, Bool, true, false, not, ◌&&◌, ◌||◌, Option, none, some, List, [], ◌∷◌, ◌++◌, map,
  same, contains, length, take, drop, filter, if◌then◌else◌, ◌≡◌,
}
use tern_scheduler.Model.Value.{Value}
use tern_scheduler.Db.Conditional.{Conditional, matches_record}

-- What the table needs of the rows that it holds.
pub record Model : Type 1 where
  pub Row : Type 0
  pub Column : Type 0
  pub Change : Type 0
  pub key : Row → String
  pub read : Row → Column → Value
  pub write : Change → Row → Row
  pub write_key : (c : Change) (r : Row) → key (write c r) ≡ key r

-- Names that `{}` inherits from `Object.prototype`: `pks[name]` is truthy for each of them.
abbrev pub inherited_keys : List String
inherited_keys =
    "constructor" ∷ "__defineGetter__" ∷ "__defineSetter__" ∷ "hasOwnProperty" ∷ "__lookupGetter__"
    ∷ "__lookupSetter__" ∷ "isPrototypeOf" ∷ "propertyIsEnumerable" ∷ "toString" ∷ "valueOf"
    ∷ "__proto__" ∷ "toLocaleString" ∷ []

-- `!!(this.pks[pk])`
unfoldable pub key_taken : String → List String → Bool
unfolding contains
key_taken pk pks = contains pk pks || contains pk inherited_keys

-- `!primaryKey`
abbrev pub no_key : Option String → Bool
no_key none = true
no_key (some k) = same k ""

-- `v.pk === primaryKey`
abbrev pub is_key : String → Option String → Bool
is_key pk none = false
is_key pk (some k) = same pk k

-- `delete this.pks[primaryKey]`
unfoldable pub delete_key : String → List String → List String
delete_key k [] = []
delete_key k (x ∷ xs) = if same x k then xs else x ∷ delete_key k xs

module _ (m : Model) where
  open m use {Row, Column, Change, key, read, write}

  pub record MemTable : Type 0 where
    pub rows : List Row
    pub pks : List String

  abbrev pub empty : MemTable
  empty = record { rows = []; pks = [] }

  -- `!conditional || matchesRecord(row, conditional)`
  abbrev pub passes : Option (Conditional Column) → Row → Bool
  passes none r = true
  passes (some c) r = matches_record (read r) c

  abbrev pub row_matches : Option String → Option (Conditional Column) → Row → Bool
  row_matches pk c r = (no_key pk || is_key (key r) pk) && passes c r

  abbrev pub write_all : List Change → Row → Row
  write_all [] r = r
  write_all (c ∷ cs) r = write_all cs (write c r)

  unfoldable pub update_rows :
      Option String → List Change → Option (Conditional Column) → List Row → List Row
  update_rows pk cs c [] = []
  update_rows pk cs c (r ∷ rs) =
      (if row_matches pk c r then write_all cs r else r) ∷ update_rows pk cs c rs

  -- The number of rows that matched, and the table with those rows rewritten in place.
  unfoldable pub conditional_update :
      String → List Change → Option (Conditional Column) → MemTable → ℕ × MemTable
  unfolding update_rows
  conditional_update pk cs c t = (
    length (filter (row_matches (some pk) c) t.rows),
    record t { rows = update_rows (some pk) cs c t.rows },
  )

  -- `_add`, whose answer decides between a resolved and a rejected `create`.
  unfoldable pub create : Row → MemTable → Bool × MemTable
  unfolding key_taken
  create r t =
      if same (key r) "" || key_taken (key r) t.pks
      then (false, t)
      else (true, record { rows = t.rows ++ r ∷ []; pks = t.pks ++ key r ∷ [] })

  unfoldable pub find : ℕ → ℕ → Option (Conditional Column) → MemTable → List Row
  find start count c t = take count (drop start (filter (row_matches none c) t.rows))

  -- The loop of `_remove`: `none` when it returns false.
  unfoldable pub remove_rows : String → Option (Conditional Column) → List Row → Option (List Row)
  remove_rows pk c [] = none
  remove_rows pk c (r ∷ rs) =
      let rest = remove_rows pk c rs in
      if same (key r) pk
      then (if passes c r then some rs else none)
      else elim rest [ none ↦ none | some kept ↦ some (r ∷ kept) ]

  abbrev pub removed : String → MemTable → Option (List Row) → ℕ × MemTable
  removed pk t none = (0, t)
  removed pk t (some kept) = (1, record { rows = kept; pks = delete_key pk t.pks })

  unfoldable pub remove : String → Option (Conditional Column) → MemTable → ℕ × MemTable
  unfolding remove_rows delete_key
  remove pk c t = removed pk t (remove_rows pk c t.rows)
