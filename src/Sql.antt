-- ===== src/Sql.antt =====
-- packages/datastore-sql/src/lib/index.ts: the where clauses that the SQL store makes of conditions.
-- What Sequelize and the database do with a clause is an argument, with the meaning that the
-- documentation of Sequelize's operators gives them.
pub mod Agrees
use tern_scheduler.Prelude.{
  String, Bool, true, false, not, ◌&&◌, ◌||◌, Option, none, some, List, [], ◌∷◌, ◌≡◌, ltb_ℤ,
}
use tern_scheduler.Model.Value.{
  Date, Value, null, text, flag, time, number, job_state, task_state, strict_eq,
}
use tern_scheduler.Db.Conditional.{
  Conditional, equals, before_date, one_of, is_null, not_null, any_of, all_of, Conditionals, nil,
  cons, value_is_null, index_of_found,
}

-- `Op.eq`, `Op.ne` with null, `Op.lt` and `Op.in`
pub data Operator : Type 0 where
  op_eq : Value → Operator
  op_ne_null : Operator
  op_lt : Date → Operator
  op_in : List Value → Operator

-- `{ [key]: { ... } }`, `{ [Op.and]: [...] }` and `{ [Op.or]: [...] }`
mutual
  pub data Where (K : Type 0) : Type 0 where
    on_key : K → List Operator → Where K
    op_and : Wheres K → Where K
    op_or : Wheres K → Where K

  pub data Wheres (K : Type 0) : Type 0 where
    no_where : Wheres K
    with_where : Where K → Wheres K → Wheres K

unfoldable mutual
  pub conditional_link : {K : Type 0} → Conditional K → Where K
  conditional_link (all_of cs) = op_and (conditional_links cs)
  conditional_link (any_of cs) = op_or (conditional_links cs)
  conditional_link (equals k v) = on_key k (op_eq v ∷ [])
  conditional_link (before_date k d) = on_key k (op_ne_null ∷ op_lt d ∷ [])
  conditional_link (one_of k vs) = on_key k (op_in vs ∷ [])
  conditional_link (not_null k) = on_key k (op_ne_null ∷ [])
  conditional_link (is_null k) = on_key k (op_eq null ∷ [])

  pub conditional_links : {K : Type 0} → Conditionals K → Wheres K
  conditional_links nil = no_where
  conditional_links (cons c cs) = with_where (conditional_link c) (conditional_links cs)

unfoldable pub to_where_clause : {K : Type 0} → K → String → Option (Conditional K) → Where K
unfolding conditional_link
to_where_clause pk primary_key none = on_key pk (op_eq (text primary_key) ∷ [])
to_where_clause pk primary_key (some c) = op_and (
    with_where (on_key pk (op_eq (text primary_key) ∷ []))
      (with_where (conditional_link c) no_where))

-- Values that a database compares as `===` does: all but dates.
abbrev pub no_date : Value → Bool
no_date (time d) = false
no_date _ = true

abbrev pub all_plain : List Value → Bool
all_plain [] = true
all_plain (v ∷ vs) = no_date v && not (value_is_null v) && all_plain vs

-- A database behind Sequelize: whether a row, by its columns, meets a clause. Texts are compared
-- exactly. An empty `Op.and` or `Op.or` and `null` within `Op.in` are left open, as is the equality of
-- dates.
pub record SqlDatabase (K : Type 0) : Type 1 where
  pub selects : (K → Value) → Where K → Bool
  pub test : Value → Operator → Bool
  pub selects_one :
      (get : K → Value) (k : K) (o : Operator) → selects get (on_key k (o ∷ [])) ≡ test (get k) o
  pub selects_two :
      (get : K → Value) (k : K) (o p : Operator)
      → selects get (on_key k (o ∷ p ∷ [])) ≡ (test (get k) o && test (get k) p)
  pub selects_and_one :
      (get : K → Value) (w : Where K) → selects get (op_and (with_where w no_where)) ≡ selects get w
  pub selects_and :
      (get : K → Value) (w v : Where K) (ws : Wheres K)
      → selects get (op_and (with_where w (with_where v ws)))
        ≡ (selects get w && selects get (op_and (with_where v ws)))
  pub selects_or_one :
      (get : K → Value) (w : Where K) → selects get (op_or (with_where w no_where)) ≡ selects get w
  pub selects_or :
      (get : K → Value) (w v : Where K) (ws : Wheres K)
      → selects get (op_or (with_where w (with_where v ws)))
        ≡ (selects get w || selects get (op_or (with_where v ws)))
  pub test_eq : (v w : Value) → no_date w ≡ true → test v (op_eq w) ≡ strict_eq v w
  pub test_ne_null : (v : Value) → test v op_ne_null ≡ not (value_is_null v)
  pub test_lt : (t d : Date) → test (time t) (op_lt d) ≡ ltb_ℤ t d
  pub test_in :
      (v : Value) (vs : List Value) → all_plain vs ≡ true → test v (op_in vs) ≡ index_of_found v vs
