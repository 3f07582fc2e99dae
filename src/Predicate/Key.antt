-- ===== src/Predicate/Key.antt =====
-- pkpredicate.go: the predicate of a key, as a database evaluates it.
use drel.Base.{
  ◌≡◌, ◌≢◌, refl, ◌∙◌, ap, Bool, true, false, ◌&&◌, Option, none, some, [], ◌∷◌, List, Text, arith,
  length, ==_iff,
}
use drel.Ast.{Operator, Value, WhereClause, Clauses, cons_clause}
use drel.Dialect.Builder.{Binds}
use drel.Dialect.Sqlite.Where.{write_where}
use drel.Pagination.Sql.{
  Row, is_true, is_true-and3, truth, all_truth, passes, compare_truth, lift_compare,
}
use drel.Predicate.{Predicate, new_comparison, and_all, clauses_of, equalities, pk_of, pk_predicate}
use drel.Predicate.Built.{pk_of-Built}
use drel.Predicate.Sound.{IsPlainRaw, Built-Binds}

-- A column that is not NULL and holds the value.
abbrev pub has_value : (Value → Value → Bool) → Option Value → Value → Bool
has_value same none v = false
has_value same (some w) v = same w v

-- Each column of the row holds the value of the key for it.
abbrev pub has_key : (Value → Value → Bool) → Row → List Text → List Value → Bool
has_key same row (c ∷ cs) (v ∷ vs) = has_value same (row c) v && has_key same row cs vs
has_key same row cs vs = true

module _ (same lt : Value → Value → Bool) (other : WhereClause → Row → Option Bool)
    (row : Row) where
  passes-comparison :
      (c : Text) (v : Value)
      → passes same lt other row (new_comparison c Operator.op_eq v).clause
        ≡ has_value same (row c) v
  unfolding passes truth compare_truth lift_compare is_true new_comparison
  passes-comparison c v = ground arith

  all_truth-cons :
      (c : WhereClause) (cs : Clauses)
      → is_true (all_truth same lt other row (cons_clause c cs))
        ≡ (passes same lt other row c && is_true (all_truth same lt other row cs))
  unfolding truth passes
  all_truth-cons c cs = is_true-and3 _ _

  all_truth-equalities :
      (cs : List Text) (vs : List Value)
      → is_true (all_truth same lt other row (clauses_of (equalities cs vs)))
        ≡ has_key same row cs vs
  unfolding truth is_true
  all_truth-equalities [] vs = refl
  all_truth-equalities (c ∷ cs) [] = refl
  all_truth-equalities (c ∷ cs) (v ∷ vs) =
      all_truth-cons _ _
      ∙ ap (λ b. b && is_true (all_truth same lt other row (clauses_of (equalities cs vs))))
          (passes-comparison c v)
      ∙ ap (λ b. has_value same (row c) v && b) (all_truth-equalities cs vs)

  passes-pk_of :
      (cs : List Text) (vs : List Value)
      → passes same lt other row (pk_of cs vs).clause ≡ has_key same row cs vs
  unfolding pk_of and_all passes truth
  passes-pk_of [] vs = all_truth-equalities [] vs
  passes-pk_of (c ∷ []) [] = all_truth-equalities (c ∷ []) []
  passes-pk_of (c ∷ []) (v ∷ []) = passes-comparison c v ∙ ground arith
  passes-pk_of (c ∷ []) (v ∷ w ∷ vs) = all_truth-equalities (c ∷ []) (v ∷ w ∷ vs)
  passes-pk_of (c ∷ d ∷ cs) vs = all_truth-equalities (c ∷ d ∷ cs) vs

  -- With one value for each key column the key's predicate is made, it prints, and a row passes it in
  -- SQL's three-valued logic exactly when each key column holds its value; with any other number of
  -- values there is a panic.
  pub pk_predicate_lem :
      (cs : List Text) (vs : List Value)
      → (length cs ≡ length vs
          → (p : Predicate) × (pk_predicate cs vs ≡ some p)
            × Binds (write_where p.clause)
            × (passes same lt other row p.clause ≡ has_key same row cs vs))
        × (length cs ≢ length vs → pk_predicate cs vs ≡ none)
  unfolding pk_predicate
  pk_predicate_lem cs vs = (
    (λ e. (
      pk_of cs vs,
      rw ((==_iff (length cs) (length vs)).1 e) refl,
      Built-Binds (pk_of-Built IsPlainRaw cs vs),
      passes-pk_of cs vs,
    )),
    (λ h. ground (arith, ==_iff (length cs) (length vs))),
  )
