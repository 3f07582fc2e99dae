-- ===== src/Dialect/Postgres/Where.antt =====
-- `writeComparison` and `writeWhere` for Postgres.
pub mod Sound
use drel.Base.{
  ℕ, suc, Bool, true, false, ◌&&◌, ◌||◌, not, Option, none, some, List, [], ◌∷◌, Text, codes, ◌==◌,
  if◌then◌else◌, head_is,
}
use drel.Ast.{
  Operator, Direction, NullsOrder, Value, ComparisonNode, WhereClause, Clauses, OrderByExpr, clause,
  nil_slice, slice, no_clauses, cons_clause, logical_and, logical_or, logical_not,
}
use drel.Dialect.Numbered.{Numbered, lit, bind, fail, nothing, ◌⊕◌, when, join}
use drel.Dialect.Quote.{quote_col}
use drel.Dialect.Sqlite.Where.{is_empty_clause, direction_sql, nulls_sql}

unfoldable pub write_order_by : List OrderByExpr → Numbered
write_order_by =
    join (codes ", ") (λ ob.
      lit (quote_col ob.column) ⊕ lit (direction_sql ob.direction) ⊕ lit (nulls_sql ob.nulls))

unfoldable pub operator_to_sql : Operator → Text
operator_to_sql Operator.op_eq = codes "="
operator_to_sql Operator.op_neq = codes "!="
operator_to_sql Operator.op_gt = codes ">"
operator_to_sql Operator.op_gte = codes ">="
operator_to_sql Operator.op_lt = codes "<"
operator_to_sql Operator.op_lte = codes "<="
operator_to_sql Operator.op_like = codes "LIKE"
operator_to_sql Operator.op_ilike = codes "ILIKE"
operator_to_sql _ = codes "="

unfoldable pub write_between : Text → List Value → Numbered
write_between col [] = fail
write_between col (low ∷ []) = fail
write_between col (low ∷ high ∷ rest) =
    lit col ⊕ lit (codes " BETWEEN ") ⊕ bind low ⊕ lit (codes " AND ") ⊕ bind high

unfoldable pub write_in : Text → Text → Text → List Value → Numbered
write_in col keyword whole [] = lit whole
write_in col keyword whole (v ∷ vs) =
    lit col ⊕ lit keyword ⊕ join (codes ", ") bind (v ∷ vs) ⊕ lit (codes ")")

unfoldable pub write_binary : Text → Operator → Value → Numbered
write_binary col op v =
    lit col ⊕ lit (codes " ") ⊕ lit (operator_to_sql op) ⊕ lit (codes " ") ⊕ bind v

unfoldable pub write_op : Text → Operator → Value → List Value → Numbered
unfolding write_between write_in write_binary
write_op col Operator.op_is_null v vs = lit col ⊕ lit (codes " IS NULL")
write_op col Operator.op_is_not_null v vs = lit col ⊕ lit (codes " IS NOT NULL")
write_op col Operator.op_in v vs = write_in col (codes " IN (") (codes "FALSE") vs
write_op col Operator.op_not_in v vs = write_in col (codes " NOT IN (") (codes "TRUE") vs
write_op col Operator.op_between v vs = write_between col vs
write_op col op v vs = write_binary col op v

unfoldable pub write_comparison : ComparisonNode → Numbered
unfolding write_op
write_comparison cmp = write_op (quote_col cmp.column) cmp.op cmp.value cmp.values

-- The states of the loop over a raw fragment, 0 to 3.
pub data RawState : Type 0 where
  normal single_quoted double_quoted dollar_quoted : RawState

-- The next state; the flag says that the next byte is the same one.
unfoldable pub raw_state : RawState → ℕ → Bool → RawState
raw_state normal c doubled =
    if c == 39
    then single_quoted
    else if c == 34
    then double_quoted
    else if c == 36 && doubled
    then dollar_quoted
    else normal
raw_state single_quoted c doubled =
    if c == 39 then (if doubled then single_quoted else normal) else single_quoted
raw_state double_quoted c doubled = if c == 34 then normal else double_quoted
raw_state dollar_quoted c doubled = if c == 36 && doubled then normal else dollar_quoted

-- `i++` over the second byte of `''` in a string, or of `$$`.
unfoldable pub raw_skips : RawState → ℕ → Bool → Bool
raw_skips normal c doubled = c == 36 && doubled
raw_skips single_quoted c doubled = c == 39 && doubled
raw_skips double_quoted c doubled = false
raw_skips dollar_quoted c doubled = c == 36 && doubled

unfoldable pub raw_is_mark : RawState → ℕ → Bool
raw_is_mark normal c = c == 63
raw_is_mark _ c = false

-- A `?` in code takes the next argument that is left; with none left it is written as it stands. The
-- flag says that this byte was written by the round before.
unfoldable pub raw_loop : RawState → Bool → Text → List Value → Numbered
unfolding raw_state raw_skips raw_is_mark
raw_loop st skip [] args = nothing
raw_loop st true (c ∷ rest) args = lit (c ∷ []) ⊕ raw_loop st false rest args
raw_loop st false (c ∷ rest) [] =
    let doubled = head_is c rest in
    lit (c ∷ []) ⊕ raw_loop (raw_state st c doubled) (raw_skips st c doubled) rest []
raw_loop st false (c ∷ rest) (v ∷ vs) =
    let doubled = head_is c rest in
    let bound = bind v ⊕ raw_loop (raw_state st c doubled) (raw_skips st c doubled) rest vs in
    let copied =
      lit (c ∷ []) ⊕ raw_loop (raw_state st c doubled) (raw_skips st c doubled) rest (v ∷ vs) in
    if raw_is_mark st c then bound else copied

has_content : Clauses → Bool
has_content no_clauses = false
has_content (cons_clause c cs) = not (is_empty_clause c) || has_content cs

write_logical : Bool → Text → Numbered → Numbered
write_logical content whole body =
    if content then lit (codes "(") ⊕ body ⊕ lit (codes ")") else lit whole

unfoldable mutual
  unfolding is_empty_clause has_content write_logical

  pub write_where : WhereClause → Numbered
  write_where (clause cmp op children (some raw) args) = raw_loop normal false raw args
  write_where (clause (some cmp) op children none args) = write_comparison cmp
  write_where (clause none logical_not nil_slice none args) = fail
  write_where (clause none logical_not (slice no_clauses) none args) = fail
  write_where (clause none logical_not (slice (cons_clause c cs)) none args) =
      lit (codes "NOT (") ⊕ write_where c ⊕ lit (codes ")")
  write_where (clause none logical_and nil_slice none args) = lit (codes "TRUE")
  write_where (clause none logical_and (slice cs) none args) =
      write_logical (has_content cs) (codes "TRUE") (write_children (codes " AND ") false cs)
  write_where (clause none logical_or nil_slice none args) = lit (codes "FALSE")
  write_where (clause none logical_or (slice cs) none args) =
      write_logical (has_content cs) (codes "FALSE") (write_children (codes " OR ") false cs)

  -- The flag says that a child was written already, so that the separator comes first.
  pub write_children : Text → Bool → Clauses → Numbered
  write_children sep started no_clauses = nothing
  write_children sep started (cons_clause c cs) =
      let rest = write_children sep (started || not (is_empty_clause c)) cs in
      let here = write_where c in
      if is_empty_clause c then rest else when started (lit sep) ⊕ here ⊕ rest
