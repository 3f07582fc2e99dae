-- ===== src/Dialect/Sqlite/Where/Sound.antt =====
-- Every clause that the predicate constructors can build prints without a panic, with one
-- placeholder for each argument.
use drel.Base.{
  ◌≤◌, ◌≡◌, refl, Bool, true, false, none, some, [], ◌∷◌, List, arith, Text, codes, length,
}
use drel.Ast.{
  Operator, Direction, NullsOrder, Value, ComparisonNode, OrderByExpr, WhereClause, Clauses, clause,
  nil_slice, slice, no_clauses, cons_clause, logical_and, logical_or, logical_not,
}
use drel.Lex.{Holds}
use drel.Dialect.Builder.{
  Sql, lit, Binds, Binds-append, Binds-lit, Binds-bind, Binds-join, Binds-if, Binds-when, is_plain,
}
use drel.Dialect.Quote.{quote_col, Binds-quote_col}
use drel.Dialect.Sqlite.Where.{
  write_order_by, direction_sql, nulls_sql, operator_to_sql, normalize_arg, write_in, write_between,
  write_binary, write_op, write_comparison, is_empty_clause, has_content, write_logical,
  write_where, write_children,
}
use drel.Dialect.Sqlite.Where.Raw.{Binds-raw_loop}

direction_sql-plain : (d : Direction) → is_plain (direction_sql d) ≡ true
unfolding direction_sql
direction_sql-plain Direction.asc = refl
direction_sql-plain Direction.desc = refl

nulls_sql-plain : (n : NullsOrder) → is_plain (nulls_sql n) ≡ true
unfolding nulls_sql
nulls_sql-plain NullsOrder.nulls_default = refl
nulls_sql-plain NullsOrder.nulls_first = refl
nulls_sql-plain NullsOrder.nulls_last = refl

operator_to_sql-plain : (op : Operator) → is_plain (operator_to_sql op) ≡ true
unfolding operator_to_sql
operator_to_sql-plain Operator.op_eq = refl
operator_to_sql-plain _ = refl

ruleset parts = (
  Binds-append, Binds-lit, Binds-bind, Binds-quote_col, direction_sql-plain, nulls_sql-plain,
  operator_to_sql-plain, refl,
)

pub Binds-write_order_by : (obs : List OrderByExpr) → Binds (write_order_by obs)
unfolding write_order_by
Binds-write_order_by = Binds-join _ (codes ", ") refl (λ ob. search parts)

-- `Between` reads two values; every other operator takes what it is given.
abbrev pub IsFed : Operator → List Value → Type 0
IsFed Operator.op_between vs = 2 ≤ length vs
IsFed _ vs = Unit {0}

module _ (col : Text) (quoted : Binds (lit col)) where
  write_between-Binds : (vs : List Value) → 2 ≤ length vs → Binds (write_between col vs)
  unfolding write_between
  write_between-Binds [] h = absurd (omega arith)
  write_between-Binds (a ∷ []) h = absurd (omega arith)
  write_between-Binds (a ∷ b ∷ vs) h = search (parts, quoted)

  write_in-Binds :
      (keyword whole : Text)
      → is_plain keyword ≡ true
      → is_plain whole ≡ true
      → (vs : List Value) → Binds (write_in col keyword whole vs)
  unfolding write_in
  write_in-Binds keyword whole hk hw [] = Binds-lit whole hw
  write_in-Binds keyword whole hk hw (v ∷ vs) = Binds-append _ _ quoted (
      Binds-append _ _ (Binds-lit keyword hk) (
        Binds-append _ _
          (Binds-join _ (codes ", ") refl (λ x. Binds-bind (normalize_arg x)) (v ∷ vs))
          (Binds-lit (codes ")") refl)))

  write_binary-Binds : (op : Operator) (v : Value) → Binds (write_binary col op v)
  unfolding write_binary
  write_binary-Binds op v = search (parts, quoted)

  write_op-Binds :
      (op : Operator) (v : Value) (vs : List Value) → IsFed op vs → Binds (write_op col op v vs)
  unfolding write_op
  write_op-Binds Operator.op_is_null v vs h = search (parts, quoted)
  write_op-Binds Operator.op_is_not_null v vs h = search (parts, quoted)
  write_op-Binds Operator.op_in v vs h = write_in-Binds (codes " IN (") (codes "0") refl refl vs
  write_op-Binds Operator.op_not_in v vs h =
      write_in-Binds (codes " NOT IN (") (codes "1") refl refl vs
  write_op-Binds Operator.op_between v vs h = write_between-Binds vs h
  write_op-Binds op v vs h = write_binary-Binds op v

write_comparison-Binds :
    (cmp : ComparisonNode) → IsFed cmp.op cmp.values → Binds (write_comparison cmp)
unfolding write_comparison
write_comparison-Binds cmp h =
    write_op-Binds (quote_col cmp.column) (Binds-quote_col cmp.column) cmp.op cmp.value cmp.values h

-- What the constructors of predicates guarantee of a clause, at every depth: a raw fragment closes
-- its quotes and has a placeholder for each argument, `Between` has its two values, and `Not` has
-- its child.
unfoldable mutual
  pub Sound : WhereClause → Type 0
  Sound (clause cmp op children (some raw) args) = Holds (length args) raw
  Sound (clause (some cmp) op children none args) = IsFed cmp.op cmp.values
  Sound (clause none logical_not nil_slice none args) = ⊥
  Sound (clause none logical_not (slice no_clauses) none args) = ⊥
  Sound (clause none logical_not (slice (cons_clause c cs)) none args) = Sound c
  Sound (clause none logical_and nil_slice none args) = Unit {0}
  Sound (clause none logical_or nil_slice none args) = Unit {0}
  Sound (clause none logical_and (slice cs) none args) = AllSound cs
  Sound (clause none logical_or (slice cs) none args) = AllSound cs

  pub AllSound : Clauses → Type 0
  AllSound no_clauses = Unit {0}
  AllSound (cons_clause c cs) = Sound c × AllSound cs

write_logical-Binds :
    (content : Bool) (whole : Text) (body : Sql)
    → is_plain whole ≡ true
    → Binds body
    → Binds (write_logical content whole body)
unfolding write_logical
write_logical-Binds content whole body hw hb =
    Binds-if content _ _ (search (parts, hb)) (Binds-lit whole hw)

mutual
  unfolding write_where Sound

  where-Binds : (c : WhereClause) → Sound c → Binds (write_where c)
  where-Binds (clause cmp op children (some raw) args) h = Binds-raw_loop raw args h
  where-Binds (clause (some cmp) op children none args) h = write_comparison-Binds cmp h
  where-Binds (clause none logical_not nil_slice none args) h = absurd h
  where-Binds (clause none logical_not (slice no_clauses) none args) h = absurd h
  where-Binds (clause none logical_not (slice (cons_clause c cs)) none args) h =
      Binds-append _ _ (Binds-lit (codes "NOT (") refl)
        (Binds-append _ _ (where-Binds c h) (Binds-lit (codes ")") refl))
  where-Binds (clause none logical_and nil_slice none args) h = Binds-lit (codes "1") refl
  where-Binds (clause none logical_or nil_slice none args) h = Binds-lit (codes "0") refl
  where-Binds (clause none logical_and (slice cs) none args) h =
      write_logical-Binds (has_content cs) (codes "1") _ refl
        (children-Binds (codes " AND ") refl false cs h)
  where-Binds (clause none logical_or (slice cs) none args) h =
      write_logical-Binds (has_content cs) (codes "0") _ refl
        (children-Binds (codes " OR ") refl false cs h)

  children-Binds :
      (sep : Text)
      → is_plain sep ≡ true
      → (started : Bool) (cs : Clauses) → AllSound cs
      → Binds (write_children sep started cs)
  children-Binds sep p started no_clauses h = Binds-lit [] refl
  children-Binds sep p started (cons_clause c cs) h =
      Binds-if (is_empty_clause c) _ _ (children-Binds sep p _ cs h.1) (
        Binds-append _ _ (Binds-when started (lit sep) (Binds-lit sep p))
          (Binds-append _ _ (where-Binds c h.0) (children-Binds sep p _ cs h.1)))

-- A clause with what the constructors guarantee prints without a panic, and the text that it
-- prints has one placeholder for each argument that it binds and leaves no quote open.
pub write_where-Binds : (c : WhereClause) → Sound c → Binds (write_where c)
write_where-Binds = where-Binds
