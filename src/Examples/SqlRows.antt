-- ===== src/Examples/SqlRows.antt =====
-- A database that meets clauses as Sequelize's documentation says
-- (packages/datastore-sql/src/lib/index.ts).
use tern_scheduler.Prelude.{
  Bool, true, false, not, ◌&&◌, ◌||◌, some, List, [], ◌∷◌, ◌≡◌, refl, arith, ltb_ℤ, pos, same,
}
use tern_scheduler.Model.Value.{Date, Value, flag, time, strict_eq}
use tern_scheduler.Model.Schedule.{
  ScheduledJob, JobColumn, lease_expires_column, pk_column, pasture_column, update_state_column,
}
use tern_scheduler.Db.Conditional.{
  Conditional, equals, before_date, is_null, any_of, nil, cons, value_is_null, index_of_found,
  matches_record,
}
use tern_scheduler.Db.MemTable.{row_matches}
use tern_scheduler.Store.Database.{job_model}
use tern_scheduler.Sql.{
  Operator, op_eq, op_ne_null, op_lt, op_in, Where, on_key, op_and, op_or, Wheres, no_where,
  with_where, conditional_link, to_where_clause, SqlDatabase,
}
use tern_scheduler.Sql.Agrees.{is_plain, selects-to_where_clause, before_date_differs}
use tern_scheduler.Examples.{backup_job}

abbrev earlier_date : Value → Date → Bool
earlier_date (time t) d = ltb_ℤ t d
earlier_date _ d = false

abbrev meets : Value → Operator → Bool
meets v (op_eq w) = strict_eq v w
meets v op_ne_null = not (value_is_null v)
meets v (op_lt d) = earlier_date v d
meets v (op_in vs) = index_of_found v vs

abbrev meets_all : Value → List Operator → Bool
meets_all v [] = true
meets_all v (o ∷ []) = meets v o
meets_all v (o ∷ (p ∷ os)) = meets v o && meets_all v (p ∷ os)

unfoldable mutual
  selects : {K : Type 0} → (K → Value) → Where K → Bool
  selects get (on_key k os) = meets_all (get k) os
  selects get (op_and ws) = selects_all get ws
  selects get (op_or ws) = selects_any get ws

  selects_all : {K : Type 0} → (K → Value) → Wheres K → Bool
  selects_all get no_where = true
  selects_all get (with_where w no_where) = selects get w
  selects_all get (with_where w (with_where v ws)) =
      selects get w && selects_all get (with_where v ws)

  selects_any : {K : Type 0} → (K → Value) → Wheres K → Bool
  selects_any get no_where = false
  selects_any get (with_where w no_where) = selects get w
  selects_any get (with_where w (with_where v ws)) =
      selects get w || selects_any get (with_where v ws)

database : SqlDatabase JobColumn
unfolding selects selects_all selects_any
database = record {
  selects = selects;
  test = meets;
  selects_one = λ get k o. refl;
  selects_two = λ get k o p. refl;
  selects_and_one = λ get w. refl;
  selects_and = λ get w v ws. refl;
  selects_or_one = λ get w. refl;
  selects_or = λ get w v ws. refl;
  test_eq = λ v w h. refl;
  test_ne_null = λ v. refl;
  test_lt = λ t d. refl;
  test_in = λ v vs h. refl;
}

abbrev free_or_out : Conditional JobColumn
free_or_out =
    any_of (cons (is_null update_state_column) (cons (equals pasture_column (flag true)) nil))

selects-to_where_clause_example :
    database.selects
      (job_model.read backup_job)
      (to_where_clause pk_column "job1" (some free_or_out))
    ≡ row_matches job_model (some "job1") (some free_or_out) backup_job
unfolding is_plain same
selects-to_where_clause_example =
    selects-to_where_clause job_model database pk_column backup_job "job1" (some free_or_out) refl
      refl refl

abbrev leased_job : ScheduledJob
leased_job = record backup_job { lease_expires = some (pos 5) }

before_date_differs_example :
    database.selects
      (job_model.read leased_job)
      (conditional_link (before_date lease_expires_column (pos 7)))
    ≡ not (matches_record (job_model.read leased_job) (before_date lease_expires_column (pos 7)))
before_date_differs_example =
    before_date_differs database (job_model.read leased_job) lease_expires_column (pos 7) (pos 5)
      refl (λ e. ground arith)
