-- ===== src/Pagination/Keyset.antt =====
-- The clause of a keyset page holds for exactly the rows after the cursor.
use drel.Base.{
  ◌≡◌, refl, sym, ap, Bool, true, false, ◌||◌, ◌&&◌, not, Option, none, some, [], ◌∷◌, ◌++◌, List,
  Text, arith, is_some, Bool-cases, All, All-append, inl, inr, ◌∙◌,
}
use drel.Ast.{
  Operator, Direction, asc, desc, NullsOrder, nulls_default, nulls_first, nulls_last, Value,
  OrderByExpr, WhereClause, logical_and, logical_or,
}
use drel.Pagination.{
  ok, and_then, compare_to, is_default, is_last, clauses, group, one_or, add_term, keyset_eq_term,
  keyset_eq_terms, keyset_strict_term, keyset_terms, close_terms, keyset_clause, strict_op,
}
use drel.Pagination.Sql.{
  Row, is_true, and3, or3, is_true-and3, is_true-or3, truth, all_truth, any_truth, passes,
  compare_truth, lift_compare, past, puts_first, after_value, tied, after, key_of, IsPlaced,
  ArePlaced,
}

-- The cursor stands on a NULL that comes last, in every column.
unfoldable pub at_end : List OrderByExpr → List (Option Value) → Bool
at_end (o ∷ os) (none ∷ vs) = is_last o.nulls && at_end os vs
at_end (o ∷ os) (some v ∷ vs) = false
at_end os vs = true

unfoldable pub stands : OrderByExpr → Option Value → Bool
stands o none = is_last o.nulls
stands o (some v) = false

at_end-cons :
    (o : OrderByExpr) (os : List OrderByExpr) (v : Option Value) (vs : List (Option Value))
    → at_end (o ∷ os) (v ∷ vs) ≡ (stands o v && at_end os vs)
unfolding at_end stands
at_end-cons o os none vs = refl
at_end-cons o os (some v) vs = refl

abbrev is_empty : List WhereClause → Bool
is_empty [] = true
is_empty (t ∷ ts) = false

is_empty-add_term :
    (eqs ts : List WhereClause) (m : Option WhereClause)
    → is_empty (add_term eqs m ts) ≡ (not (is_some m) && is_empty ts)
unfolding add_term
is_empty-add_term eqs ts m = ground arith

empty_path : (ts : List WhereClause) → is_empty ts ≡ true → ts ≡ []
empty_path [] h = refl
empty_path (t ∷ ts) h = absurd (cc h)

distribute : (a b c d : Bool) → ((a && b) || ((a && c) && d)) ≡ (a && (b || (c && d)))
distribute a b c d = ground arith

module _ (same lt : Value → Value → Bool) (places : Direction → Bool)
    (other : WhereClause → Row → Option Bool) (row : Row) where
  abbrev holds : WhereClause → Bool
  holds c = passes same lt other row c

  abbrev any_holds : List WhereClause → Bool
  any_holds ts = is_true (any_truth same lt other row (clauses ts))

  abbrev all_hold : List WhereClause → Bool
  all_hold ts = is_true (all_truth same lt other row (clauses ts))

  any_holds-cons :
      (t : WhereClause) (ts : List WhereClause) → any_holds (t ∷ ts) ≡ (holds t || any_holds ts)
  unfolding clauses truth passes
  any_holds-cons t ts = is_true-or3 _ _

  all_hold-cons :
      (t : WhereClause) (ts : List WhereClause) → all_hold (t ∷ ts) ≡ (holds t && all_hold ts)
  unfolding clauses truth passes
  all_hold-cons t ts = is_true-and3 _ _

  all_hold-append : (ts us : List WhereClause) → all_hold (ts ++ us) ≡ (all_hold ts && all_hold us)
  unfolding is_true truth clauses
  all_hold-append [] us = refl
  all_hold-append (t ∷ ts) us =
      ground (arith, all_hold-append ts us, all_hold-cons t (ts ++ us), all_hold-cons t ts)

  one_or-any :
      (t : WhereClause) (ts : List WhereClause)
      → holds (one_or logical_or (t ∷ ts)) ≡ any_holds (t ∷ ts)
  unfolding one_or group passes truth clauses is_true or3
  one_or-any t [] = ground (arith, any_holds-cons t [])
  one_or-any t (u ∷ ts) = refl

  one_or-all :
      (t : WhereClause) (ts : List WhereClause)
      → holds (one_or logical_and (t ∷ ts)) ≡ all_hold (t ∷ ts)
  unfolding one_or group passes truth clauses is_true and3
  one_or-all t [] = ground (arith, all_hold-cons t [])
  one_or-all t (u ∷ ts) = refl

  conjunction :
      (eqs : List WhereClause) (strict : WhereClause)
      → holds (one_or logical_and (eqs ++ strict ∷ [])) ≡ (all_hold eqs && holds strict)
  unfolding is_true truth clauses
  conjunction [] strict = ground (arith, one_or-all strict [], all_hold-cons strict [])
  conjunction (e ∷ eqs) strict = ground (
    arith,
    one_or-all e (eqs ++ strict ∷ []),
    all_hold-append (e ∷ eqs) (strict ∷ []),
    all_hold-cons strict [],
  )

  add_term-any :
      (eqs : List WhereClause) (strict : WhereClause) (rest : List WhereClause)
      → any_holds (add_term eqs (some strict) rest)
        ≡ ((all_hold eqs && holds strict) || any_holds rest)
  unfolding add_term
  add_term-any eqs strict rest =
      ground (
        arith,
        conjunction eqs strict,
        any_holds-cons (one_or logical_and (eqs ++ strict ∷ [])) rest,
      )

  eq_term :
      (o : OrderByExpr) (v : Option Value)
      → IsPlaced o v
      → (c : WhereClause) × (keyset_eq_term o v ≡ ok c) × (holds c ≡ tied same v (row o.column))
  unfolding keyset_eq_term compare_to passes truth compare_truth lift_compare tied is_true
  eq_term o none placed = elim (Bool-cases (is_default o.nulls)) [
    | inl d ↦ absurd (cc (placed d))
    | inr d ↦ rw d (_, refl, ground arith)
  ]
  eq_term o (some v) placed = (_, refl, ground arith)

  abbrev strict_holds : Option WhereClause → Bool
  strict_holds none = false
  strict_holds (some c) = holds c

  strict_by_parts :
      (c : Text) (d : Direction) (n : NullsOrder) (v : Option Value)
      → let o : OrderByExpr = record { column = c; direction = d; nulls = n } in
        IsPlaced o v
        → IsPlaced o (row c)
        → (m : Option WhereClause) × (keyset_strict_term o v ≡ ok m)
          × (not (is_some m) ≡ stands o v)
          × (strict_holds m ≡ after_value lt places o v (row c))
  unfolding stands keyset_strict_term strict_op group clauses compare_to passes truth compare_truth
      lift_compare after_value past is_true puts_first is_last is_default or3
  strict_by_parts c d nulls_last none placed row_placed = (none, refl, refl, ground arith)
  strict_by_parts c d nulls_first none placed row_placed = (_, refl, refl, ground arith)
  strict_by_parts c d nulls_default none placed row_placed = absurd (cc (placed refl))
  strict_by_parts c asc nulls_last (some v) placed row_placed = (_, refl, refl, ground arith)
  strict_by_parts c asc nulls_first (some v) placed row_placed = (_, refl, refl, ground arith)
  strict_by_parts c asc nulls_default (some v) placed row_placed =
      let there = row_placed refl in (_, refl, refl, ground (arith, there))
  strict_by_parts c desc nulls_last (some v) placed row_placed = (_, refl, refl, ground arith)
  strict_by_parts c desc nulls_first (some v) placed row_placed = (_, refl, refl, ground arith)
  strict_by_parts c desc nulls_default (some v) placed row_placed =
      let there = row_placed refl in (_, refl, refl, ground (arith, there))

  strict_term :
      (o : OrderByExpr) (v : Option Value)
      → IsPlaced o v
      → IsPlaced o (row o.column)
      → (m : Option WhereClause) × (keyset_strict_term o v ≡ ok m)
        × (not (is_some m) ≡ stands o v)
        × (strict_holds m ≡ after_value lt places o v (row o.column))
  strict_term o v placed row_placed =
      strict_by_parts o.column o.direction o.nulls v placed row_placed

  -- The columns before the k-th, with their cursor values, on which the row ties with the cursor.
  abbrev ties : List (OrderByExpr × Option Value) → Bool
  ties [] = true
  ties (p ∷ ps) = tied same p.1 (row p.0.column) && ties ps

  ties-append :
      (ps : List (OrderByExpr × Option Value)) (o : OrderByExpr) (v : Option Value)
      → ties (ps ++ (o, v) ∷ []) ≡ (ties ps && tied same v (row o.column))
  ties-append [] o v = ground arith
  ties-append (p ∷ ps) o v = ground (arith, ties-append ps o v)

  abbrev AllPlaced : List (OrderByExpr × Option Value) → Type 0
  AllPlaced ps = All (λ p. IsPlaced p.0 p.1) ps

  eq_terms :
      (ps : List (OrderByExpr × Option Value))
      → AllPlaced ps
      → (eqs : List WhereClause) × (keyset_eq_terms ps ≡ ok eqs) × (all_hold eqs ≡ ties ps)
  unfolding keyset_eq_terms and_then clauses is_true truth
  eq_terms [] placed = ([], refl, refl)
  eq_terms (p ∷ ps) placed =
      let (c, e, h) = eq_term p.0 p.1 placed.0 in
      let (cs, es, hs) = eq_terms ps placed.1 in
      (c ∷ cs, rw (e, es) refl, rw (all_hold-cons c cs, h, hs) refl)

  -- One round of the loop.
  round :
      (eqs : List WhereClause) (m : Option WhereClause) (ts : List WhereClause)
      → any_holds (add_term eqs m ts) ≡ ((all_hold eqs && strict_holds m) || any_holds ts)
  unfolding add_term
  round eqs none ts = ground arith
  round eqs (some c) ts = add_term-any eqs c ts

  terms-after :
      (ps : List (OrderByExpr × Option Value)) (os : List OrderByExpr) (vs : List (Option Value))
      → AllPlaced ps
      → ArePlaced os vs
      → ArePlaced os (key_of os row)
      → (ts : List WhereClause) × (keyset_terms ps os vs ≡ ok ts)
        × (is_empty ts ≡ at_end os vs)
        × (any_holds ts ≡ (ties ps && after same lt places os vs (key_of os row)))
  unfolding at_end keyset_terms and_then after key_of ArePlaced clauses is_true truth
  terms-after ps [] [] before placed there = ([], refl, refl, ground arith)
  terms-after ps [] (v ∷ vs) before placed there = absurd placed
  terms-after ps (o ∷ os) [] before placed there = absurd placed
  terms-after ps (o ∷ os) (v ∷ vs) before placed there =
      let (eqs, e, h) = eq_terms ps before in
      let (m, em, nm, hm) = strict_term o v placed.0 there.0 in
      let (ts, et, nt, ht) =
        terms-after (ps ++ (o, v) ∷ []) os vs (All-append _ ps _ before (placed.0, tt)) placed.1
          there.1 in
      (
        add_term eqs m ts,
        rw (e, em, et) refl,
        rw (is_empty-add_term eqs ts m, nm, nt) (sym (at_end-cons o os v vs)),
        rw (round eqs m ts, h, hm, ht, ties-append ps o v)
            (distribute (ties ps) (after_value lt places o v (row o.column))
              (tied same v (row o.column)) (after same lt places os vs (key_of os row))),
      )

  closed :
      (order : List OrderByExpr) (ts : List WhereClause)
      → is_empty ts ≡ false
      → (c : WhereClause) × (close_terms order ts ≡ ok c) × (holds c ≡ any_holds ts)
  unfolding close_terms
  closed order [] h = absurd (cc h)
  closed order (t ∷ ts) h = (_, refl, one_or-any t ts)

  clause-after :
      (order : List OrderByExpr) (vals : List (Option Value))
      → ArePlaced order vals
      → ArePlaced order (key_of order row)
      → at_end order vals ≡ false
      → (c : WhereClause) × (keyset_clause order vals ≡ ok c)
        × (holds c ≡ after same lt places order vals (key_of order row))
  unfolding keyset_clause and_then
  clause-after order vals placed there h =
      let (ts, et, nt, ht) = terms-after [] order vals tt placed there in
      let (c, ec, hc) = closed order ts (nt ∙ h) in (c, rw et ec, hc ∙ ht)

  nothing_holds : any_holds [] ≡ false
  unfolding clauses truth is_true
  nothing_holds = refl

  at_end-ArePlaced :
      (os : List OrderByExpr) (vs : List (Option Value))
      → ArePlaced os vs
      → at_end os vs ≡ true
      → ArePlaced os (key_of os row)
  unfolding ArePlaced at_end key_of is_last is_default
  at_end-ArePlaced [] [] placed h = tt
  at_end-ArePlaced [] (v ∷ vs) placed h = absurd placed
  at_end-ArePlaced (o ∷ os) [] placed h = absurd placed
  at_end-ArePlaced (o ∷ os) (some v ∷ vs) placed h = absurd (cc h)
  at_end-ArePlaced (o ∷ os) (none ∷ vs) placed h =
      ((λ d. absurd (cc (placed.0 d))), at_end-ArePlaced os vs placed.1 (ground (arith, h)))

  clause-end :
      (o : OrderByExpr) (os : List OrderByExpr) (vals : List (Option Value))
      → ArePlaced (o ∷ os) vals
      → at_end (o ∷ os) vals ≡ true
      → (c : WhereClause) × (keyset_clause (o ∷ os) vals ≡ ok c)
        × (holds c ≡ not (is_some (row o.column)))
        × (after same lt places (o ∷ os) vals (key_of (o ∷ os) row) ≡ false)
  unfolding keyset_clause and_then close_terms compare_to passes truth compare_truth is_true
  clause-end o os vals placed h =
      let there = at_end-ArePlaced (o ∷ os) vals placed h in
      let (ts, et, nt, ht) = terms-after [] (o ∷ os) vals tt placed there in
      let empty : ts ≡ [] = empty_path ts (nt ∙ h) in
      let c : WhereClause = compare_to o.column Operator.op_is_null none in
      (c, rw (et, empty) refl, refl, sym ht ∙ ap any_holds empty ∙ nothing_holds)

any_row : Row
any_row t = none

module _ (same lt : Value → Value → Bool) (places : Direction → Bool)
    (other : WhereClause → Row → Option Bool) where
  -- For an ordering that pins the place of NULL in each column where the cursor or the row has one,
  -- and a cursor that is not on a last NULL in every column, the page's clause is made, and the row
  -- passes it in SQL's three-valued logic exactly when it is after the cursor in the ordering, wherever
  -- the database puts NULL by default.
  pub keyset_clause_lem :
      (order : List OrderByExpr) (vals : List (Option Value)) (row : Row)
      → ArePlaced order vals
      → ArePlaced order (key_of order row)
      → at_end order vals ≡ false
      → (c : WhereClause) × (keyset_clause order vals ≡ ok c)
        × (passes same lt other row c ≡ after same lt places order vals (key_of order row))
  keyset_clause_lem order vals row placed there h =
      clause-after same lt places other row order vals placed there h

  -- For an ordering that pins the place of NULL where the cursor has one, and a cursor on a last NULL
  -- in every column, no row is after the cursor, and the page's clause passes the rows with a NULL
  -- in the first column.
  pub keyset_clause_end :
      (o : OrderByExpr) (os : List OrderByExpr) (vals : List (Option Value))
      → ArePlaced (o ∷ os) vals
      → at_end (o ∷ os) vals ≡ true
      → (c : WhereClause) × (keyset_clause (o ∷ os) vals ≡ ok c)
        × ((row : Row)
            → (passes same lt other row c ≡ not (is_some (row o.column)))
              × (after same lt places (o ∷ os) vals (key_of (o ∷ os) row) ≡ false))
  keyset_clause_end o os vals placed h =
      let (c, e, p, n) = clause-end same lt places other any_row o os vals placed h in
      (
        c,
        e,
        λ row.
            let (d, f, q, l) = clause-end same lt places other row o os vals placed h in
            let same_clause : c ≡ d = cc in rw same_clause (q, l),
      )
