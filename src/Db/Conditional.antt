-- ===== src/Db/Conditional.antt =====
-- The conditions of packages/core/src/lib/datastore/db-api.ts, and how memory.ts decides them.
use tern_scheduler.Prelude.{Bool, true, false, not, ◌&&◌, ◌||◌, List, [], ◌∷◌, ltb_ℤ}
use tern_scheduler.Model.Value.{Date, Value, null, time, strict_eq}

mutual
  pub data Conditional (K : Type 0) : Type 0 where
    equals : K → Value → Conditional K
    before_date : K → Date → Conditional K
    one_of : K → List Value → Conditional K
    is_null : K → Conditional K
    not_null : K → Conditional K
    any_of : Conditionals K → Conditional K
    all_of : Conditionals K → Conditional K

  pub data Conditionals (K : Type 0) : Type 0 where
    nil : Conditionals K
    cons : Conditional K → Conditionals K → Conditionals K

abbrev pub value_is_null : Value → Bool
value_is_null null = true
value_is_null _ = false

-- `val instanceof Date && cnd.before < val`
abbrev pub date_test : Date → Value → Bool
date_test before (time val) = ltb_ℤ before val
date_test before _ = false

-- `cnd.values.indexOf(val) >= 0`
abbrev pub index_of_found : Value → List Value → Bool
index_of_found val [] = false
index_of_found val (v ∷ vs) = strict_eq v val || index_of_found val vs

unfoldable mutual
  -- `get key` is `record[key]`.
  pub matches_record : {K : Type 0} → (K → Value) → Conditional K → Bool
  matches_record get (equals k v) = strict_eq (get k) v
  matches_record get (before_date k d) = date_test d (get k)
  matches_record get (one_of k vs) = index_of_found (get k) vs
  matches_record get (is_null k) = value_is_null (get k)
  matches_record get (not_null k) = not (value_is_null (get k))
  matches_record get (any_of cs) = matches_any get cs
  matches_record get (all_of cs) = matches_all get cs

  pub matches_any : {K : Type 0} → (K → Value) → Conditionals K → Bool
  matches_any get nil = false
  matches_any get (cons c cs) = matches_record get c || matches_any get cs

  pub matches_all : {K : Type 0} → (K → Value) → Conditionals K → Bool
  matches_all get nil = true
  matches_all get (cons c cs) = matches_record get c && matches_all get cs
