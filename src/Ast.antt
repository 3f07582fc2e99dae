-- ===== src/Ast.antt =====
-- internal/ast/ast.go: the query tree that the builders make and the dialects print.
use drel.Base.{ℕ, Text, Bool, Option, List}

pub data Operator : Type 0 where
  op_eq op_neq op_gt op_gte op_lt op_lte op_like op_ilike op_in op_not_in op_between : Operator
  op_is_null op_is_not_null : Operator

pub data Direction : Type 0 where
  asc desc : Direction

pub data QueryType : Type 0 where
  query_select query_count query_exists : QueryType

pub data LogicalOp : Type 0 where
  logical_and logical_or logical_not : LogicalOp

pub data NullsOrder : Type 0 where
  nulls_default nulls_first nulls_last : NullsOrder

pub data AggFunc : Type 0 where
  agg_sum agg_avg agg_min agg_max agg_count : AggFunc

pub data JoinType : Type 0 where
  join_inner join_left : JoinType

-- Go's `any`, as far as a type switch of the program tells values apart: a `time.Time` (its
-- instant and the offset of its zone), a `RawExpr` with its SQL, and the rest.
pub data Value : Type 0 where
  time : ℕ → ℕ → Value
  raw_expr : Text → Value
  number : ℕ → Value
  text : Text → Value

pub record ComparisonNode : Type 0 where
  pub column : Text
  pub op : Operator
  pub value : Value
  pub values : List Value

-- `Children` is a slice, and the printers tell a nil slice from an empty one.
mutual
  pub data WhereClause : Type 0 where
    clause : Option ComparisonNode → LogicalOp → Children → Option Text → List Value → WhereClause

  pub data Children : Type 0 where
    nil_slice : Children
    slice : Clauses → Children

  pub data Clauses : Type 0 where
    no_clauses : Clauses
    cons_clause : WhereClause → Clauses → Clauses

pub record OrderByExpr : Type 0 where
  pub column : Text
  pub direction : Direction
  pub nulls : NullsOrder

pub record AggregateExpr : Type 0 where
  pub func : AggFunc
  pub column : Text
  pub alias : Text
  pub distinct : Bool
  pub coalesce_zero : Bool

pub record PartitionLimit : Type 0 where
  pub partition_by : Text
  pub order_by : List OrderByExpr
  pub limit : ℕ

pub record JoinNode : Type 0 where
  pub table : Text
  pub type : JoinType
  pub on : Text

pub record SelectNode : Type 0 where
  pub table : Text
  pub columns : List Text
  pub where_clause : Option WhereClause
  pub order_by : List OrderByExpr
  pub limit : Option ℕ
  pub offset : Option ℕ
  pub type : QueryType
  pub group_by : List Text
  pub having : Option WhereClause
  pub aggregates : List AggregateExpr
  pub partition_limit : Option PartitionLimit
  pub distinct : Bool
  pub joins : List JoinNode
