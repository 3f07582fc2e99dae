-- ===== src/Dialect/Postgres/Bulk/Sound.antt =====
-- The arguments of the statements over many rows.
use drel.Base.{Bool, Option, none, some, List, [], ◌∷◌, ◌++◌, Text, codes}
use drel.Ast.{Value, WhereClause}
use drel.Dialect.Builder.{ColumnValue}
use drel.Dialect.Numbered.{
  lit, ◌⊕◌, optional, Prints, Silent, Prints-append, Prints-lit, Prints-nothing, Prints-bind,
  Prints-after, Prints-before, Prints-skip, Prints-close, Prints-values, Prints-items, all_of,
  Silent-if, Silent-join,
}
use drel.Dialect.Postgres.Where.{write_where}
use drel.Dialect.Postgres.Where.Sound.{write_where-Prints}
use drel.Dialect.Postgres.Select.Sound.{filter_arguments, IsPrintableFilter}
use drel.Dialect.Postgres.Write.Sound.{comma_names-Silent}
use drel.Dialect.Postgres.Bulk.{
  write_row, build_bulk_insert, write_set, build_bulk_update, build_bulk_delete,
  build_bulk_soft_delete, write_excluded, build_bulk_upsert,
}

abbrev pub row_values : List (List Value) → List Value
row_values = all_of (λ row. row)

abbrev pub set_values : List ColumnValue → List Value
set_values = all_of (λ cv. cv.value ∷ [])

write_row-Prints : (row : List Value) → Prints row (write_row row)
unfolding write_row
write_row-Prints row = Prints-after _ _ _ (Prints-before _ _ _ (Prints-values _ row))

pub build_bulk_insert-Prints :
    (table : Text) (columns : List Text) (rows : List (List Value))
    → Prints (row_values rows) (build_bulk_insert table columns rows)
unfolding build_bulk_insert
build_bulk_insert-Prints table columns rows = Prints-after _ _ _ (
    Prints-after _ _ _ (
      Prints-after _ _ _ (
        Prints-skip _ _ _ (comma_names-Silent columns)
          (Prints-after _ _ _ (Prints-items (codes ", ") write_row _ write_row-Prints rows)))))

write_set-Prints : (cv : ColumnValue) → Prints (cv.value ∷ []) (write_set cv)
unfolding write_set
write_set-Prints cv = Prints-after _ _ _ (Prints-after _ _ _ (Prints-bind _))

filter-Prints :
    (keyword : Text) (filter : Option WhereClause)
    → IsPrintableFilter filter
    → Prints (filter_arguments filter) (optional filter (λ c. lit keyword ⊕ write_where c))
unfolding filter_arguments IsPrintableFilter
filter-Prints keyword none h = Prints-nothing
filter-Prints keyword (some c) h = Prints-after _ keyword _ (write_where-Prints c h)

pub build_bulk_update-Prints :
    (table : Text) (sets : List ColumnValue) (filter : Option WhereClause)
    → IsPrintableFilter filter
    → Prints (set_values sets ++ filter_arguments filter) (build_bulk_update table sets filter)
unfolding build_bulk_update
build_bulk_update-Prints table sets filter h = Prints-after _ _ _ (
    Prints-after _ _ _ (
      Prints-after _ _ _ (
        Prints-append _ _ _ _ (Prints-items (codes ", ") write_set _ write_set-Prints sets)
          (filter-Prints (codes " WHERE ") filter h))))

pub build_bulk_delete-Prints :
    (table : Text) (filter : Option WhereClause)
    → IsPrintableFilter filter
    → Prints (filter_arguments filter) (build_bulk_delete table filter)
unfolding build_bulk_delete
build_bulk_delete-Prints table filter h =
    search (Prints-after, filter-Prints (codes " WHERE ") filter h)

pub build_bulk_soft_delete-Prints :
    (table : Text) (filter : Option WhereClause)
    → IsPrintableFilter filter
    → Prints (filter_arguments filter) (build_bulk_soft_delete table filter)
unfolding build_bulk_soft_delete
build_bulk_soft_delete-Prints table filter h =
    search (Prints-after, filter-Prints (codes " AND ") filter h) depth 10

write_excluded-Silent : (c : Text) → Silent (write_excluded c)
unfolding write_excluded
write_excluded-Silent c = Prints-after _ _ _ (Prints-after _ _ _ (Prints-lit _))

pub build_bulk_upsert-Prints :
    (table : Text) (columns : List Text) (rows : List (List Value))
    (conflict_cols update_cols : List Text) (do_nothing : Bool)
    → Prints
        (row_values rows)
        (build_bulk_upsert table columns rows conflict_cols update_cols do_nothing)
unfolding build_bulk_upsert
build_bulk_upsert-Prints table columns rows conflict_cols update_cols do_nothing =
    Prints-close _ _ _ (build_bulk_insert-Prints table columns rows) (
      Prints-after _ _ _ (
        Prints-skip _ _ _ (comma_names-Silent conflict_cols) (
          Silent-if do_nothing _ _ (Prints-lit _) (
            Prints-after _ _ _
              (Silent-join write_excluded write_excluded-Silent (codes ", ") update_cols)))))
