-- ===== src/Dialect/Postgres/Select/Sound.antt =====
-- The arguments of what `BuildSelect` prints.
use drel.Base.{ℕ, Option, none, some, List, [], ◌++◌, Text, codes, Bool-cases, inl, inr, not}
use drel.Ast.{
  Value, QueryType, query_select, query_count, query_exists, AggregateExpr, PartitionLimit,
  JoinNode, SelectNode, WhereClause, OrderByExpr,
}
use drel.Dialect.Numbered.{
  lit, ◌⊕◌, when, Prints, Silent, Prints-append, Prints-lit, Prints-nothing, Prints-after,
  Prints-skip, Prints-close, Silent-if, Silent-when, Silent-optional, Silent-join, Silent-each,
}
use drel.Dialect.Sqlite.Where.{is_empty_clause}
use drel.Dialect.Postgres.Where.{write_order_by, write_where}
use drel.Dialect.Postgres.Where.Sound.{arguments, IsPrintable, empty-arguments, write_where-Prints}
use drel.Dialect.Postgres.Select.{
  names, write_aggregate, write_targets, write_partition, write_join, write_clause,
  write_where_part, write_limit, select_count, select_exists, select_rows, wrap_partition,
  select_with, select_of, build_select,
}

unfoldable pub filter_arguments : Option WhereClause → List Value
filter_arguments none = []
filter_arguments (some c) = arguments c

-- The filter's arguments, then those of HAVING, which only a SELECT prints.
unfoldable pub select_arguments : QueryType → SelectNode → List Value
unfolding filter_arguments
select_arguments query_select node =
    filter_arguments node.where_clause ++ filter_arguments node.having
select_arguments t node = filter_arguments node.where_clause

unfoldable pub IsPrintableFilter : Option WhereClause → Type 0
IsPrintableFilter none = Unit {0}
IsPrintableFilter (some c) = IsPrintable c

names-Silent : (quote : Text → Text) (xs : List Text) → Silent (names quote xs)
names-Silent quote = Silent-join _ (λ c. Prints-lit (quote c)) (codes ", ")

write_order_by-Silent : (obs : List OrderByExpr) → Silent (write_order_by obs)
unfolding write_order_by
write_order_by-Silent =
    Silent-join _ (λ ob. Prints-after [] _ _ (Prints-after [] _ _ (Prints-lit _))) (codes ", ")

ruleset silent =
    (Prints-skip, Prints-lit, Silent-when, Silent-if, names-Silent, write_order_by-Silent)

write_aggregate-Silent : (agg : AggregateExpr) → Silent (write_aggregate agg)
unfolding write_aggregate
write_aggregate-Silent agg = search silent depth 12

write_targets-Silent : (node : SelectNode) → Silent (write_targets node)
unfolding write_targets
write_targets-Silent node =
    search (silent, Silent-join write_aggregate write_aggregate-Silent (codes ", ") node.aggregates)

write_partition-Silent : (p : PartitionLimit) → Silent (write_partition p)
unfolding write_partition
write_partition-Silent p = search silent depth 12

write_join-Silent : (j : JoinNode) → Silent (write_join j)
unfolding write_join
write_join-Silent j = search silent depth 12

write_limit-Silent : (keyword : Text) (o : Option ℕ) → Silent (write_limit keyword o)
unfolding write_limit
write_limit-Silent keyword = Silent-optional _ (λ n. search silent)

clause-Prints :
    (keyword : Text) (c : WhereClause)
    → IsPrintable c
    → Prints (arguments c) (when (not (is_empty_clause c)) (lit keyword ⊕ write_where c))
clause-Prints keyword c h = elim (Bool-cases (is_empty_clause c)) [
  | inl e ↦ rw (e, empty-arguments c e) Prints-nothing
  | inr e ↦ rw e (Prints-after (arguments c) keyword _ (write_where-Prints c h))
]

write_clause-Prints :
    (keyword : Text) (o : Option WhereClause)
    → IsPrintableFilter o
    → Prints (filter_arguments o) (write_clause keyword o)
unfolding filter_arguments IsPrintableFilter
write_clause-Prints keyword none h = Prints-nothing
write_clause-Prints keyword (some c) h = clause-Prints keyword c h

module _ (node : SelectNode) (wh : IsPrintableFilter node.where_clause) where
  where_part-Prints : Prints (filter_arguments node.where_clause) (write_where_part node)
  where_part-Prints = write_clause-Prints (codes " WHERE ") node.where_clause wh

  select_count-Prints : Prints (filter_arguments node.where_clause) (select_count node)
  unfolding select_count
  select_count-Prints = Prints-after _ _ _ (Prints-after _ _ _ where_part-Prints)

  select_exists-Prints : Prints (filter_arguments node.where_clause) (select_exists node)
  unfolding select_exists
  select_exists-Prints = Prints-after _ _ _ (
      Prints-after _ _ _ (
        Prints-close _ _ _ where_part-Prints
          (Prints-skip [] _ _ (write_limit-Silent _ node.limit) (Prints-lit _))))

  module _ (hv : IsPrintableFilter node.having) where
    having-Prints :
        Prints (filter_arguments node.having) (write_clause (codes " HAVING ") node.having)
    having-Prints = write_clause-Prints (codes " HAVING ") node.having hv

    select_rows-Prints :
        Prints
          (filter_arguments node.where_clause ++ filter_arguments node.having)
          (select_rows node)
    unfolding select_rows
    select_rows-Prints = Prints-after _ _ _ (
        Prints-skip _ _ _ (search silent) (
          Prints-skip _ _ _ (write_targets-Silent node) (
            Prints-skip _ _ _
              (Silent-optional write_partition write_partition-Silent node.partition_limit)
              (Prints-after _ _ _ (
                Prints-after _ _ _ (
                  Prints-skip _ _ _ (Silent-each write_join write_join-Silent node.joins) (
                    Prints-append (filter_arguments node.where_clause)
                      (filter_arguments node.having) _ _ where_part-Prints
                      (Prints-skip _ _ _ (search silent) (
                        Prints-close _ _ _ having-Prints
                          (search (silent, write_limit-Silent)))))))))))

    select_with-Prints :
        (o : Option PartitionLimit)
        → Prints
            (filter_arguments node.where_clause ++ filter_arguments node.having)
            (select_with node o)
    unfolding select_with wrap_partition
    select_with-Prints none = select_rows-Prints
    select_with-Prints (some p) = Prints-after _ _ _ (
        Prints-skip _ _ _ (names-Silent _ _)
          (Prints-after _ _ _ (Prints-close _ _ _ select_rows-Prints (search silent depth 12))))

    select_of-Prints : (t : QueryType) → Prints (select_arguments t node) (select_of t node)
    unfolding select_of select_arguments
    select_of-Prints query_count = select_count-Prints
    select_of-Prints query_exists = select_exists-Prints
    select_of-Prints query_select = select_with-Prints node.partition_limit

    pub build_select-Prints : Prints (select_arguments node.type node) (build_select node)
    unfolding build_select
    build_select-Prints = select_of-Prints node.type
