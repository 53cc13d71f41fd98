-- ===== src/Sql/Agrees.antt =====
-- Where the SQL store (packages/datastore-sql/src/lib/index.ts) and the memory store
-- (packages/core/src/lib/datastore/memory.ts) agree on a condition, and where they do not.
use tern_scheduler.Prelude.{
  Bool, true, false, not, ◌&&◌, ◌||◌, Option, none, some, [], ◌∷◌, ◌≡◌, refl, arith, ap, sym, ◌∙◌,
  ltb_ℤ, ℤ, pos, negsuc, ltb, ℕ, suc, ◌+◌, ◌≢◌, String, same,
}
use tern_scheduler.Model.Value.{
  Date, Value, null, text, flag, time, number, job_state, task_state, strict_eq,
}
use tern_scheduler.Db.Conditional.{
  Conditional, equals, before_date, one_of, is_null, not_null, any_of, all_of, Conditionals, nil,
  cons, value_is_null, matches_record, matches_any, matches_all,
}
use tern_scheduler.Db.MemTable.{Model, passes, row_matches}
use tern_scheduler.Sql.{
  on_key, op_and, op_or, no_where, with_where, conditional_link, conditional_links, op_eq,
  to_where_clause, SqlDatabase, no_date, all_plain,
}

-- Conditions without dates, without null among the values of a list, and with no empty list of
-- conditions.
unfoldable mutual
  pub is_plain : {K : Type 0} → Conditional K → Bool
  is_plain (equals k v) = no_date v
  is_plain (before_date k d) = false
  is_plain (one_of k vs) = all_plain vs
  is_plain (is_null k) = true
  is_plain (not_null k) = true
  is_plain (any_of cs) = are_plain cs
  is_plain (all_of cs) = are_plain cs

  pub are_plain : {K : Type 0} → Conditionals K → Bool
  are_plain nil = false
  are_plain (cons c nil) = is_plain c
  are_plain (cons c (cons d cs)) = is_plain c && are_plain (cons d cs)

null_test : (v : Value) → strict_eq v null ≡ value_is_null v
null_test null = refl
null_test (text s) = refl
null_test (flag b) = refl
null_test (time d) = refl
null_test (number n) = refl
null_test (job_state t) = refl
null_test (task_state t) = refl

and_true : (a b : Bool) → (a && b) ≡ true → (a ≡ true) × (b ≡ true)
and_true true b h = (refl, h)
and_true false b h = absurd (cc)

or_false : (b : Bool) → b ≡ (b || false)
or_false true = refl
or_false false = refl

and_with_true : (b : Bool) → b ≡ (b && true)
and_with_true true = refl
and_with_true false = refl

module _ {K : Type 0} (sql : SqlDatabase K) (get : K → Value) where
  mutual
    unfolding conditional_link conditional_links is_plain are_plain matches_record matches_any
        matches_all

    selects-conditional_link :
        (c : Conditional K)
        → is_plain c ≡ true
        → sql.selects get (conditional_link c) ≡ matches_record get c
    selects-conditional_link (equals k v) h = sql.selects_one get k _ ∙ sql.test_eq (get k) v h
    selects-conditional_link (before_date k d) h = absurd (cc)
    selects-conditional_link (one_of k vs) h = sql.selects_one get k _ ∙ sql.test_in (get k) vs h
    selects-conditional_link (is_null k) h =
        sql.selects_one get k _ ∙ sql.test_eq (get k) null refl ∙ null_test (get k)
    selects-conditional_link (not_null k) h = sql.selects_one get k _ ∙ sql.test_ne_null (get k)
    selects-conditional_link (any_of cs) h = selects_any cs h
    selects-conditional_link (all_of cs) h = selects_all cs h

    selects_any :
        (cs : Conditionals K)
        → are_plain cs ≡ true
        → sql.selects get (op_or (conditional_links cs)) ≡ matches_any get cs
    selects_any nil h = absurd (cc)
    selects_any (cons c nil) h =
        sql.selects_or_one get _ ∙ selects-conditional_link c h ∙ or_false (matches_record get c)
    selects_any (cons c (cons d cs)) h =
        let p = and_true (is_plain c) (are_plain (cons d cs)) h in
        sql.selects_or get _ _ _
        ∙ ap (λ b. b || sql.selects get (op_or (conditional_links (cons d cs))))
            (selects-conditional_link c p.0)
        ∙ ap (λ b. matches_record get c || b) (selects_any (cons d cs) p.1)

    selects_all :
        (cs : Conditionals K)
        → are_plain cs ≡ true
        → sql.selects get (op_and (conditional_links cs)) ≡ matches_all get cs
    selects_all nil h = absurd (cc)
    selects_all (cons c nil) h =
        sql.selects_and_one get _
        ∙ selects-conditional_link c h
        ∙ and_with_true (matches_record get c)
    selects_all (cons c (cons d cs)) h =
        let p = and_true (is_plain c) (are_plain (cons d cs)) h in
        sql.selects_and get _ _ _
        ∙ ap (λ b. b && sql.selects get (op_and (conditional_links (cons d cs))))
            (selects-conditional_link c p.0)
        ∙ ap (λ b. matches_record get c && b) (selects_all (cons d cs) p.1)

-- No condition, or a plain one.
abbrev pub is_plain_or_none : {K : Type 0} → Option (Conditional K) → Bool
is_plain_or_none none = true
is_plain_or_none (some c) = is_plain c

module _ (m : Model) (sql : SqlDatabase (Model.Column m)) (pk : Model.Column m) (r : Model.Row m)
    (k : String) where
  open m use {key, read}

  own_key :
      read r pk ≡ text (key r)
      → sql.selects (read r) (on_key pk (op_eq (text k) ∷ [])) ≡ same (key r) k
  own_key own =
      sql.selects_one (read r) pk _
      ∙ sql.test_eq (read r pk) (text k) refl
      ∙ ap (λ v. strict_eq v (text k)) own

  row_test :
      (c : Option (Conditional (Model.Column m)))
      → same k "" ≡ false
      → row_matches m (some k) c r ≡ (same (key r) k && passes m c r)
  row_test c h = rw h refl

  -- With operators that mean what Sequelize documents, the clause of an update or a removal by the
  -- SQL store selects exactly the rows that the memory store's table matches, for a key that is
  -- not empty, a column that holds the rows' keys, and a condition without dates, without null in
  -- a list of values and without an empty list of conditions.
  pub selects-to_where_clause :
      (c : Option (Conditional (Model.Column m)))
      → read r pk ≡ text (key r)
      → same k "" ≡ false
      → is_plain_or_none c ≡ true
      → sql.selects (read r) (to_where_clause pk k c) ≡ row_matches m (some k) c r
  unfolding to_where_clause
  selects-to_where_clause none own h p =
      own_key own ∙ and_with_true (same (key r) k) ∙ sym (row_test none h)
  selects-to_where_clause (some c) own h p =
      sql.selects_and (read r) _ _ _
      ∙ ap (λ b. b && sql.selects (read r) (op_and (with_where (conditional_link c) no_where)))
          (own_key own)
      ∙ ap (λ b. same (key r) k && b)
          (sql.selects_and_one (read r) _ ∙ selects-conditional_link sql (read r) c p)
      ∙ sym (row_test (some c) h)

opposite_ℕ : (a b : ℕ) → a ≢ b → ltb a b ≡ not (ltb b a)
opposite_ℕ a b h = ground arith

opposite_ℤ : (t d : ℤ) → t ≢ d → ltb_ℤ t d ≡ not (ltb_ℤ d t)
opposite_ℤ (pos m) (pos n) h = opposite_ℕ (m + 0) (n + 0) (λ e. h (ap pos (omega (arith, e))))
opposite_ℤ (pos m) (negsuc n) h = ground arith
opposite_ℤ (negsuc m) (pos n) h = ground arith
opposite_ℤ (negsuc m) (negsuc n) h =
    opposite_ℕ (0 + suc n) (0 + suc m) (λ e. h (ap negsuc (omega (arith, e))))

-- For a column with a date other than the condition's, and operators that mean what Sequelize
-- documents, one store selects the row and the other does not: the SQL store looks for earlier
-- dates, the memory store for later ones.
pub before_date_differs :
    {K : Type 0} (sql : SqlDatabase K) (get : K → Value) (k : K) (d t : Date)
    → get k ≡ time t
    → t ≢ d
    → sql.selects get (conditional_link (before_date k d))
      ≡ not (matches_record get (before_date k d))
unfolding conditional_link matches_record
before_date_differs sql get k d t e other =
    sql.selects_two get k _ _
    ∙ rw e (rw (sql.test_ne_null (time t), sql.test_lt t d) (opposite_ℤ t d other))
