-- ===== src/Predicate.antt =====
-- predicate.go, filter.go, order.go and pkpredicate.go: the constructors of predicates.
pub mod Raw
pub mod Built
pub mod Numbered
pub mod Key
pub mod Sound
use drel.Base.{
  ℕ, suc, ◌+◌, Bool, true, false, ◌&&◌, Option, none, some, [], ◌∷◌, List, Text, codes, ◌==◌,
  if◌then◌else◌, head_is, length,
}
use drel.Ast.{
  Operator, Direction, NullsOrder, Value, ComparisonNode, OrderByExpr, WhereClause, Children,
  Clauses, clause, nil_slice, slice, no_clauses, cons_clause, logical_and, logical_or, logical_not,
}

pub record Predicate : Type 0 where
  pub clause : WhereClause

-- Go's zero value of an `any` field.
abbrev nil_value : Value
nil_value = Value.text []

abbrev comparison : ComparisonNode → Predicate
comparison cmp = record { clause = WhereClause.clause (some cmp) logical_and nil_slice none [] }

unfoldable pub new_comparison : Text → Operator → Value → Predicate
new_comparison column op value =
    comparison (record { column = column; op = op; value = value; values = [] })

unfoldable pub new_in_comparison : Text → List Value → Predicate
new_in_comparison column values =
    comparison (record { column = column; op = Operator.op_in; value = nil_value; values = values })

unfoldable pub new_not_in_comparison : Text → List Value → Predicate
new_not_in_comparison column values =
    comparison
      (record { column = column; op = Operator.op_not_in; value = nil_value; values = values })

unfoldable pub new_between_comparison : Text → Value → Value → Predicate
new_between_comparison column low high = comparison (record {
  column = column;
  op = Operator.op_between;
  value = nil_value;
  values = low ∷ high ∷ [];
})

unfoldable pub new_null_check : Text → Bool → Predicate
new_null_check column is_null = comparison (record {
  column = column;
  op = if is_null then Operator.op_is_null else Operator.op_is_not_null;
  value = nil_value;
  values = [];
})

abbrev pub clauses_of : List Predicate → Clauses
clauses_of [] = no_clauses
clauses_of (p ∷ ps) = cons_clause p.clause (clauses_of ps)

-- `make` gives a slice that is not nil, also with no predicate.
unfoldable pub and_all : List Predicate → Predicate
and_all ps = record { clause = WhereClause.clause none logical_and (slice (clauses_of ps)) none [] }

unfoldable pub or_any : List Predicate → Predicate
or_any ps = record { clause = WhereClause.clause none logical_or (slice (clauses_of ps)) none [] }

unfoldable pub negate : Predicate → Predicate
negate p = record {
  clause = WhereClause.clause none logical_not (slice (cons_clause p.clause no_clauses)) none [];
}

-- `Predicate{}`
unfoldable pub always : Predicate
always = record { clause = WhereClause.clause none logical_and nil_slice none [] }

unfoldable pub where_if : Bool → Predicate → Predicate
where_if cond p = if cond then p else always

pub data ScanState : Type 0 where
  normal single_quoted double_quoted dollar_quoted : ScanState

unfoldable pub scan_state : ScanState → ℕ → Text → ScanState
scan_state normal c rest =
    if c == 39
    then single_quoted
    else if c == 34
    then double_quoted
    else if c == 36 && head_is 36 rest
    then dollar_quoted
    else normal
scan_state single_quoted c rest =
    if c == 39 then (if head_is 39 rest then single_quoted else normal) else single_quoted
scan_state double_quoted c rest = if c == 34 then normal else double_quoted
scan_state dollar_quoted c rest = if c == 36 && head_is 36 rest then normal else dollar_quoted

-- `i++`: the next byte belongs to a pair of quotes or of dollars.
unfoldable pub scan_skips : ScanState → ℕ → Text → Bool
scan_skips normal c rest = c == 36 && head_is 36 rest
scan_skips single_quoted c rest = c == 39 && head_is 39 rest
scan_skips double_quoted c rest = false
scan_skips dollar_quoted c rest = c == 36 && head_is 36 rest

unfoldable pub scan_is_mark : ScanState → ℕ → Bool
scan_is_mark normal c = c == 63
scan_is_mark _ c = false

-- The loop of `countRawPlaceholders`; the flag says that the byte is skipped.
unfoldable pub count_loop : ScanState → Bool → Text → ℕ
unfolding scan_state scan_skips scan_is_mark
count_loop st skip [] = 0
count_loop st true (c ∷ rest) = count_loop st false rest
count_loop st false (c ∷ rest) =
    let n = count_loop (scan_state st c rest) (scan_skips st c rest) rest in
    if scan_is_mark st c then suc n else n

unfoldable pub count_raw_placeholders : Text → ℕ
count_raw_placeholders sql = count_loop normal false sql

-- `Raw` panics and `RawErr` returns an error where this is `none`.
unfoldable pub raw : Text → List Value → Option Predicate
raw sql args =
    if count_raw_placeholders sql == length args
    then some (record { clause = WhereClause.clause none logical_and nil_slice (some sql) args })
    else none

pub record NamedFilter : Type 0 where
  pub name : Text
  pub clause : WhereClause

abbrev pub soft_delete_filter : NamedFilter
soft_delete_filter = record {
  name = codes "soft_delete";
  clause =
      WhereClause.clause
        (some (record {
          column = codes "deleted_at";
          op = Operator.op_is_null;
          value = nil_value;
          values = [];
        }))
        logical_and nil_slice none [];
}

pub record OrderExpr : Type 0 where
  pub column : Text
  pub direction : Direction
  pub nulls : NullsOrder

unfoldable pub to_ast : OrderExpr → OrderByExpr
to_ast o = record { column = o.column; direction = o.direction; nulls = o.nulls }

unfoldable pub nulls_first : OrderExpr → OrderExpr
nulls_first o = record o { nulls = NullsOrder.nulls_first }

unfoldable pub nulls_last : OrderExpr → OrderExpr
nulls_last o = record o { nulls = NullsOrder.nulls_last }

abbrev pub Splitter : Type 0
Splitter = Value → List Value

unfoldable pub key_values_of : Option Splitter → Value → List Value
key_values_of none key = key ∷ []
key_values_of (some kv) key = kv key

abbrev pub equalities : List Text → List Value → List Predicate
equalities [] vs = []
equalities (c ∷ cs) [] = []
equalities (c ∷ cs) (v ∷ vs) = new_comparison c Operator.op_eq v ∷ equalities cs vs

unfoldable pub pk_of : List Text → List Value → Predicate
pk_of (c ∷ []) (v ∷ []) = new_comparison c Operator.op_eq v
pk_of cs vs = and_all (equalities cs vs)

-- A key with as many values as columns; otherwise a panic.
unfoldable pub pk_predicate : List Text → List Value → Option Predicate
unfolding pk_of
pk_predicate columns values =
    if length columns == length values then some (pk_of columns values) else none
