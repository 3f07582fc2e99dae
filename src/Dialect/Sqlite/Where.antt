-- ===== src/Dialect/Sqlite/Where.antt =====
-- `isEmptyClause`, `normalizeArg`, `writeOrderBy`, `writeComparison` and `writeWhere`.
pub mod Raw
pub mod Sound
use drel.Base.{
  ℕ, zero, suc, ◌+◌, Bool, true, false, ◌&&◌, ◌||◌, not, Option, none, some, List, [], ◌∷◌, ◌++◌,
  Text, codes, ◌==◌, if◌then◌else◌, head_is,
}
use drel.Ast.{
  Operator, Direction, LogicalOp, NullsOrder, Value, ComparisonNode, WhereClause, Children, Clauses,
  OrderByExpr, clause, nil_slice, slice, no_clauses, cons_clause, logical_and, logical_or,
  logical_not,
}
use drel.Dialect.Builder.{Result, Sql, lit, bind, nothing, ◌⊕◌, when, join}
use drel.Dialect.Quote.{quote_ident, quote_col}

unfoldable pub is_empty_clause : WhereClause → Bool
is_empty_clause (clause (some c) op children raw args) = false
is_empty_clause (clause none op children (some r) args) = false
is_empty_clause (clause none op nil_slice none args) = true
is_empty_clause (clause none op (slice cs) none args) = false

unfoldable pub nulls_sql : NullsOrder → Text
nulls_sql NullsOrder.nulls_default = []
nulls_sql NullsOrder.nulls_first = codes " NULLS FIRST"
nulls_sql NullsOrder.nulls_last = codes " NULLS LAST"

unfoldable pub direction_sql : Direction → Text
direction_sql Direction.asc = []
direction_sql Direction.desc = codes " DESC"

unfoldable pub write_order_by : List OrderByExpr → Sql
write_order_by =
    join (codes ", ") (λ ob.
      lit (quote_col ob.column) ⊕ lit (direction_sql ob.direction) ⊕ lit (nulls_sql ob.nulls))

-- A `time.Time` is taken to UTC: the instant stays, the offset goes.
unfoldable pub normalize_arg : Value → Value
normalize_arg (Value.time instant offset) = Value.time instant 0
normalize_arg (Value.raw_expr t) = Value.raw_expr t
normalize_arg (Value.number n) = Value.number n
normalize_arg (Value.text t) = Value.text t

unfoldable pub operator_to_sql : Operator → Text
operator_to_sql Operator.op_eq = codes "="
operator_to_sql Operator.op_neq = codes "!="
operator_to_sql Operator.op_gt = codes ">"
operator_to_sql Operator.op_gte = codes ">="
operator_to_sql Operator.op_lt = codes "<"
operator_to_sql Operator.op_lte = codes "<="
operator_to_sql Operator.op_like = codes "LIKE"
operator_to_sql Operator.op_ilike = codes "LIKE"
operator_to_sql _ = codes "="

abbrev write_values : List Value → Sql
write_values = join (codes ", ") (λ v. bind (normalize_arg v))

-- `Values[0]` and `Values[1]`; a shorter slice is a panic.
write_between : Text → List Value → Sql
write_between col [] = none
write_between col (low ∷ []) = none
write_between col (low ∷ high ∷ rest) =
    lit col
    ⊕ lit (codes " BETWEEN ")
    ⊕ bind (normalize_arg low)
    ⊕ lit (codes " AND ")
    ⊕ bind (normalize_arg high)

write_in : Text → Text → Text → List Value → Sql
write_in col keyword whole [] = lit whole
write_in col keyword whole (v ∷ vs) =
    lit col ⊕ lit keyword ⊕ write_values (v ∷ vs) ⊕ lit (codes ")")

write_binary : Text → Operator → Value → Sql
write_binary col op v =
    lit col ⊕ lit (codes " ") ⊕ lit (operator_to_sql op) ⊕ lit (codes " ") ⊕ bind (normalize_arg v)

write_op : Text → Operator → Value → List Value → Sql
unfolding write_between write_in write_binary
write_op col Operator.op_is_null v vs = lit col ⊕ lit (codes " IS NULL")
write_op col Operator.op_is_not_null v vs = lit col ⊕ lit (codes " IS NOT NULL")
write_op col Operator.op_in v vs = write_in col (codes " IN (") (codes "0") vs
write_op col Operator.op_not_in v vs = write_in col (codes " NOT IN (") (codes "1") vs
write_op col Operator.op_between v vs = write_between col vs
write_op col op v vs = write_binary col op v

unfoldable pub write_comparison : ComparisonNode → Sql
unfolding write_op
write_comparison cmp = write_op (quote_col cmp.column) cmp.op cmp.value cmp.values

-- The states of the loop over a raw fragment: code, a quoted string, a quoted identifier.
pub data RawState : Type 0 where
  normal single_quoted double_quoted : RawState

raw_state : RawState → ℕ → Bool → RawState
raw_state normal c doubled =
    if c == 39 then single_quoted else if c == 34 then double_quoted else normal
raw_state single_quoted c doubled =
    if c == 39 then (if doubled then single_quoted else normal) else single_quoted
raw_state double_quoted c doubled = if c == 34 then normal else double_quoted

raw_is_mark : RawState → ℕ → Bool
raw_is_mark normal c = c == 63
raw_is_mark single_quoted c = false
raw_is_mark double_quoted c = false

-- `i++` over the second quote of a doubled one.
raw_skips : RawState → ℕ → Bool → Bool
raw_skips single_quoted c doubled = c == 39 && doubled
raw_skips _ c doubled = false

abbrev first_arg : List Value → List Value
first_arg [] = []
first_arg (v ∷ vs) = v ∷ []

abbrev later_args : List Value → List Value
later_args [] = []
later_args (v ∷ vs) = vs

abbrev put : ℕ → List Value → Result → Result
put c bound r = record { sql = c ∷ r.sql; args = bound ++ r.args }

-- Every byte is written as it stands; a `?` in code also binds the next argument that is left. The
-- flag says that this byte was written by the round before, as the second quote of a doubled one.
unfoldable pub raw_loop : RawState → Bool → Text → List Value → Result
unfolding raw_state raw_is_mark raw_skips
raw_loop st skip [] args = record { sql = []; args = [] }
raw_loop st true (c ∷ rest) args = put c [] (raw_loop st false rest args)
raw_loop st false (c ∷ rest) args =
    let doubled = head_is 39 rest in
    let mark = raw_is_mark st c in
    put c (if mark then first_arg args else []) (
      raw_loop (raw_state st c doubled) (raw_skips st c doubled) rest
        (if mark then later_args args else args))

has_content : Clauses → Bool
has_content no_clauses = false
has_content (cons_clause c cs) = not (is_empty_clause c) || has_content cs

-- The children that are not empty, joined; with none left, the identity of the connective.
write_logical : Bool → Text → Sql → Sql
write_logical content whole body =
    if content then lit (codes "(") ⊕ body ⊕ lit (codes ")") else lit whole

unfoldable mutual
  unfolding is_empty_clause has_content write_logical

  pub write_where : WhereClause → Sql
  write_where (clause cmp op children (some raw) args) = some (raw_loop normal false raw args)
  write_where (clause (some cmp) op children none args) = write_comparison cmp
  write_where (clause none logical_not nil_slice none args) = none
  write_where (clause none logical_not (slice no_clauses) none args) = none
  write_where (clause none logical_not (slice (cons_clause c cs)) none args) =
      lit (codes "NOT (") ⊕ write_where c ⊕ lit (codes ")")
  write_where (clause none logical_and nil_slice none args) = lit (codes "1")
  write_where (clause none logical_and (slice cs) none args) =
      write_logical (has_content cs) (codes "1") (write_children (codes " AND ") false cs)
  write_where (clause none logical_or nil_slice none args) = lit (codes "0")
  write_where (clause none logical_or (slice cs) none args) =
      write_logical (has_content cs) (codes "0") (write_children (codes " OR ") false cs)

  -- The flag says that a child was written already, so that the separator comes first.
  write_children : Text → Bool → Clauses → Sql
  write_children sep started no_clauses = nothing
  write_children sep started (cons_clause c cs) =
      let rest = write_children sep (started || not (is_empty_clause c)) cs in
      let here = write_where c in
      if is_empty_clause c then rest else when started (lit sep) ⊕ here ⊕ rest
