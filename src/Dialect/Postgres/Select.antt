-- ===== src/Dialect/Postgres/Select.antt =====
-- `BuildSelect` for Postgres.
pub mod Sound
use drel.Base.{
  ℕ, Bool, true, false, ◌&&◌, not, Option, none, some, List, Text, codes, if◌then◌else◌,
}
use drel.Ast.{
  QueryType, query_select, query_count, query_exists, AggregateExpr, PartitionLimit, JoinNode,
  SelectNode, WhereClause,
}
use drel.Dialect.Builder.{decimal}
use drel.Dialect.Numbered.{Numbered, lit, nothing, ◌⊕◌, when, optional, join, each}
use drel.Dialect.Quote.{quote_ident, quote_col}
use drel.Dialect.Sqlite.Where.{is_empty_clause}
use drel.Dialect.Sqlite.Select.{agg_func_sql, join_keyword, is_blank, is_count, is_nil}
use drel.Dialect.Postgres.Where.{write_order_by, write_where}

abbrev names : (Text → Text) → List Text → Numbered
names quote = join (codes ", ") (λ c. lit (quote c))

write_aggregate : AggregateExpr → Numbered
write_aggregate agg =
    when agg.coalesce_zero (lit (codes "COALESCE("))
    ⊕ lit (agg_func_sql agg.func)
    ⊕ lit (codes "(")
    ⊕ (if is_count agg.func && is_blank agg.column
        then lit (codes "*")
        else when agg.distinct (lit (codes "DISTINCT ")) ⊕ lit (quote_ident agg.column))
    ⊕ lit (codes ")")
    ⊕ when agg.coalesce_zero (lit (codes ", 0)"))
    ⊕ when (not (is_blank agg.alias)) (lit (codes " AS ") ⊕ lit (quote_ident agg.alias))

-- A comma stands between the columns and the aggregates if there are both.
write_targets : SelectNode → Numbered
unfolding write_aggregate
write_targets node =
    names quote_col node.columns
    ⊕ when (not (is_nil node.columns) && not (is_nil node.aggregates)) (lit (codes ", "))
    ⊕ join (codes ", ") write_aggregate node.aggregates

write_partition : PartitionLimit → Numbered
write_partition p =
    lit (codes ", ROW_NUMBER() OVER (PARTITION BY ")
    ⊕ lit (quote_ident p.partition_by)
    ⊕ when (not (is_nil p.order_by)) (lit (codes " ORDER BY ") ⊕ write_order_by p.order_by)
    ⊕ lit (codes ") AS ")
    ⊕ lit (quote_ident (codes "_drel_rn"))

write_join : JoinNode → Numbered
unfolding join_keyword
write_join j = lit (join_keyword j.type) ⊕ lit (quote_ident j.table) ⊕ lit (codes " ON ") ⊕ lit j.on

abbrev write_clause : Text → Option WhereClause → Numbered
write_clause keyword o =
    optional o (λ c. when (not (is_empty_clause c)) (lit keyword ⊕ write_where c))

abbrev write_where_part : SelectNode → Numbered
write_where_part node = write_clause (codes " WHERE ") node.where_clause

write_limit : Text → Option ℕ → Numbered
write_limit keyword o = optional o (λ n. lit keyword ⊕ lit (decimal n))

-- `COUNT` carries only the filter.
select_count : SelectNode → Numbered
select_count node =
    lit (codes "SELECT COUNT(*) FROM ") ⊕ lit (quote_ident node.table) ⊕ write_where_part node

select_exists : SelectNode → Numbered
unfolding write_limit
select_exists node =
    lit (codes "SELECT EXISTS(SELECT 1 FROM ")
    ⊕ lit (quote_ident node.table)
    ⊕ write_where_part node
    ⊕ write_limit (codes " LIMIT ") node.limit
    ⊕ lit (codes ")")

select_rows : SelectNode → Numbered
unfolding write_targets write_partition write_join write_limit
select_rows node =
    lit (codes "SELECT ")
    ⊕ when node.distinct (lit (codes "DISTINCT "))
    ⊕ write_targets node
    ⊕ optional node.partition_limit write_partition
    ⊕ lit (codes " FROM ")
    ⊕ lit (quote_ident node.table)
    ⊕ each write_join node.joins
    ⊕ write_where_part node
    ⊕ when (not (is_nil node.group_by)) (lit (codes " GROUP BY ") ⊕ names quote_ident node.group_by)
    ⊕ write_clause (codes " HAVING ") node.having
    ⊕ when (not (is_nil node.order_by)) (lit (codes " ORDER BY ") ⊕ write_order_by node.order_by)
    ⊕ write_limit (codes " LIMIT ") node.limit
    ⊕ write_limit (codes " OFFSET ") node.offset

-- The window function's rows are filtered by an outer query.
wrap_partition : SelectNode → PartitionLimit → Numbered
unfolding select_rows
wrap_partition node p =
    lit (codes "SELECT ")
    ⊕ names quote_ident node.columns
    ⊕ lit (codes " FROM (")
    ⊕ select_rows node
    ⊕ lit (codes ") AS ")
    ⊕ lit (quote_ident (codes "_drel_w"))
    ⊕ lit (codes " WHERE ")
    ⊕ lit (quote_ident (codes "_drel_rn"))
    ⊕ lit (codes " <= ")
    ⊕ lit (decimal p.limit)

select_with : SelectNode → Option PartitionLimit → Numbered
unfolding wrap_partition
select_with node none = select_rows node
select_with node (some p) = wrap_partition node p

select_of : QueryType → SelectNode → Numbered
unfolding select_count select_exists select_with
select_of query_count node = select_count node
select_of query_exists node = select_exists node
select_of query_select node = select_with node node.partition_limit

unfoldable pub build_select : SelectNode → Numbered
unfolding select_of
build_select node = select_of node.type node
