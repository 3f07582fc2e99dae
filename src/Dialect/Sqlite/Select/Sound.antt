-- ===== src/Dialect/Sqlite/Select/Sound.antt =====
-- What `BuildSelect` prints is well formed.
use drel.Base.{ℕ, ◌≡◌, refl, true, Option, none, some, [], ◌∷◌, List, Text, codes, All}
use drel.Ast.{
  AggFunc, JoinType, QueryType, query_select, query_count, query_exists, AggregateExpr,
  PartitionLimit, JoinNode, SelectNode, WhereClause,
}
use drel.Lex.{Holds}
use drel.Dialect.Builder.{
  optional, each, Binds, Binds-closed, Binds-append, Binds-lit, Binds-if, Binds-when,
  Binds-optional, Binds-join, Binds-decimal, is_plain,
}
use drel.Dialect.Quote.{quote_ident, quote_col, Binds-quote_ident, Binds-quote_col}
use drel.Dialect.Sqlite.Where.Sound.{Sound, write_where-Binds, Binds-write_order_by}
use drel.Dialect.Sqlite.Select.{
  agg_func_sql, names, write_aggregate, write_targets, write_partition, join_keyword, write_join,
  write_clause, write_where_part, write_limit, select_rows, select_with, select_of, build_select,
}

-- What a node asks of its parts: the filters are sound, and the raw `ON` texts have neither an
-- open quote nor a placeholder.
pub record IsWellFormed (node : SelectNode) : Type 0 where
  pub where_sound : (c : WhereClause) → node.where_clause ≡ some c → Sound c
  pub having_sound : (c : WhereClause) → node.having ≡ some c → Sound c
  pub on_closed : All (λ j. Holds 0 j.on) node.joins

agg_func_sql-plain : (f : AggFunc) → is_plain (agg_func_sql f) ≡ true
unfolding agg_func_sql
agg_func_sql-plain AggFunc.agg_sum = refl
agg_func_sql-plain _ = refl

join_keyword-plain : (t : JoinType) → is_plain (join_keyword t) ≡ true
unfolding join_keyword
join_keyword-plain JoinType.join_left = refl
join_keyword-plain JoinType.join_inner = refl

names-Binds-col : (xs : List Text) → Binds (names quote_col xs)
names-Binds-col = Binds-join _ (codes ", ") refl Binds-quote_col

names-Binds-ident : (xs : List Text) → Binds (names quote_ident xs)
names-Binds-ident = Binds-join _ (codes ", ") refl Binds-quote_ident

ruleset parts = (
  Binds-append, Binds-lit, Binds-quote_col, Binds-quote_ident, Binds-when, Binds-if, Binds-decimal,
  Binds-write_order_by, agg_func_sql-plain, join_keyword-plain, names-Binds-col, names-Binds-ident,
  refl,
)

write_aggregate-Binds : (agg : AggregateExpr) → Binds (write_aggregate agg)
unfolding write_aggregate
write_aggregate-Binds agg = search parts depth 12

write_targets-Binds : (node : SelectNode) → Binds (write_targets node)
unfolding write_targets
write_targets-Binds node =
    search
      (parts, Binds-join write_aggregate (codes ", ") refl write_aggregate-Binds node.aggregates)

write_partition-Binds : (p : PartitionLimit) → Binds (write_partition p)
unfolding write_partition
write_partition-Binds p = search parts depth 12

write_join-Binds : (j : JoinNode) → Holds 0 j.on → Binds (write_join j)
unfolding write_join
write_join-Binds j h = search (parts, Binds-closed j.on h)

joins-Binds : (js : List JoinNode) → All (λ j. Holds 0 j.on) js → Binds (each write_join js)
unfolding each
joins-Binds [] h = Binds-lit [] refl
joins-Binds (j ∷ js) h = Binds-append _ _ (write_join-Binds j h.0) (joins-Binds js h.1)

write_clause-Binds :
    (keyword : Text)
    → is_plain keyword ≡ true
    → (o : Option WhereClause) → ((c : WhereClause) → o ≡ some c → Sound c)
    → Binds (write_clause keyword o)
write_clause-Binds keyword p o h =
    Binds-optional o _
      (λ c e. Binds-when _ _ (Binds-append _ _ (Binds-lit keyword p) (write_where-Binds c (h c e))))

write_limit-Binds :
    (keyword : Text) → is_plain keyword ≡ true → (o : Option ℕ) → Binds (write_limit keyword o)
unfolding write_limit
write_limit-Binds keyword p o =
    Binds-optional o _ (λ n _. Binds-append _ _ (Binds-lit keyword p) (Binds-decimal n))

module _ (node : SelectNode) (h : IsWellFormed node) where
  where_part-Binds : Binds (write_where_part node)
  where_part-Binds = write_clause-Binds (codes " WHERE ") refl node.where_clause h.where_sound

  having-Binds : Binds (write_clause (codes " HAVING ") node.having)
  having-Binds = write_clause-Binds (codes " HAVING ") refl node.having h.having_sound

  partition-Binds : Binds (optional node.partition_limit write_partition)
  partition-Binds = Binds-optional _ _ (λ p _. write_partition-Binds p)

  select_rows-Binds : Binds (select_rows node)
  unfolding select_rows
  select_rows-Binds =
      search
        (
          parts,
          where_part-Binds,
          having-Binds,
          partition-Binds,
          write_targets-Binds node,
          joins-Binds node.joins h.on_closed,
          write_limit-Binds,
        )
        depth 16

  select_of-Binds : (t : QueryType) → Binds (select_of t node)
  unfolding select_of
  select_of-Binds query_count = search (parts, where_part-Binds)
  select_of-Binds query_exists = search (parts, where_part-Binds, write_limit-Binds) depth 8
  select_of-Binds query_select = elim node.partition_limit as (λ o. Binds (select_with node o)) [
    | none ↦ select_rows-Binds
    | some p ↦ search (parts, select_rows-Binds) depth 14
  ]

  -- A SELECT, COUNT or EXISTS of a well-formed node is printed, and it has one placeholder for
  -- each argument and closes every quote.
  pub build_select-Binds : Binds (build_select node)
  unfolding build_select
  build_select-Binds = select_of-Binds node.type
