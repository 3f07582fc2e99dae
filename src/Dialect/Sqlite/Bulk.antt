-- ===== src/Dialect/Sqlite/Bulk.antt =====
-- The statements over many rows, and the proof that they are well formed.
use drel.Base.{◌≡◌, refl, Bool, true, Option, some, List, Text, codes, if◌then◌else◌}
use drel.Ast.{Value, WhereClause}
use drel.Dialect.Builder.{
  ColumnValue, Sql, lit, bind, ◌⊕◌, optional, join, Binds, Binds-append, Binds-lit, Binds-bind,
  Binds-if, Binds-optional, Binds-join, is_plain,
}
use drel.Dialect.Quote.{quote_ident, Binds-quote_ident}
use drel.Dialect.Sqlite.Where.{write_where}
use drel.Dialect.Sqlite.Where.Sound.{Sound, write_where-Binds}
use drel.Dialect.Sqlite.Write.{comma_names}

write_row : List Value → Sql
write_row row = lit (codes "(") ⊕ join (codes ", ") bind row ⊕ lit (codes ")")

unfoldable pub build_bulk_insert : Text → List Text → List (List Value) → Sql
unfolding write_row
build_bulk_insert table columns rows =
    lit (codes "INSERT INTO ")
    ⊕ lit (quote_ident table)
    ⊕ lit (codes " (")
    ⊕ comma_names columns
    ⊕ lit (codes ") VALUES ")
    ⊕ join (codes ", ") write_row rows

-- Unlike an update of one row, every value is bound, a raw expression too.
write_set : ColumnValue → Sql
write_set cv = lit (quote_ident cv.column) ⊕ lit (codes " = ") ⊕ bind cv.value

unfoldable pub build_bulk_update : Text → List ColumnValue → Option WhereClause → Sql
unfolding write_set
build_bulk_update table sets filter =
    lit (codes "UPDATE ")
    ⊕ lit (quote_ident table)
    ⊕ lit (codes " SET ")
    ⊕ join (codes ", ") write_set sets
    ⊕ optional filter (λ c. lit (codes " WHERE ") ⊕ write_where c)

unfoldable pub build_bulk_delete : Text → Option WhereClause → Sql
build_bulk_delete table filter =
    lit (codes "DELETE FROM ")
    ⊕ lit (quote_ident table)
    ⊕ optional filter (λ c. lit (codes " WHERE ") ⊕ write_where c)

unfoldable pub build_bulk_soft_delete : Text → Option WhereClause → Sql
build_bulk_soft_delete table filter =
    lit (codes "UPDATE ")
    ⊕ lit (quote_ident table)
    ⊕ lit (codes " SET ")
    ⊕ lit (quote_ident (codes "deleted_at"))
    ⊕ lit (codes " = CURRENT_TIMESTAMP WHERE ")
    ⊕ lit (quote_ident (codes "deleted_at"))
    ⊕ lit (codes " IS NULL")
    ⊕ optional filter (λ c. lit (codes " AND ") ⊕ write_where c)

write_excluded : Text → Sql
write_excluded c = lit (quote_ident c) ⊕ lit (codes " = EXCLUDED.") ⊕ lit (quote_ident c)

unfoldable pub build_bulk_upsert :
    Text → List Text → List (List Value) → List Text → List Text → Bool → Sql
unfolding write_excluded
build_bulk_upsert table columns rows conflict_cols update_cols do_nothing =
    build_bulk_insert table columns rows
    ⊕ lit (codes " ON CONFLICT (")
    ⊕ comma_names conflict_cols
    ⊕ (if do_nothing
        then lit (codes ") DO NOTHING")
        else lit (codes ") DO UPDATE SET ") ⊕ join (codes ", ") write_excluded update_cols)

abbrev pub IsSoundFilter : Option WhereClause → Type 0
IsSoundFilter filter = (c : WhereClause) → filter ≡ some c → Sound c

comma_names-Binds : (cs : List Text) → Binds (comma_names cs)
comma_names-Binds = Binds-join _ (codes ", ") refl Binds-quote_ident

ruleset parts =
    (Binds-append, Binds-lit, Binds-quote_ident, Binds-if, Binds-bind, comma_names-Binds, refl)

write_row-Binds : (row : List Value) → Binds (write_row row)
unfolding write_row
write_row-Binds row = search (parts, Binds-join bind (codes ", ") refl Binds-bind row)

-- An INSERT of any rows has one placeholder for each of their values.
pub build_bulk_insert-Binds :
    (table : Text) (columns : List Text) (rows : List (List Value))
    → Binds (build_bulk_insert table columns rows)
unfolding build_bulk_insert
build_bulk_insert-Binds table columns rows =
    search (parts, Binds-join write_row (codes ", ") refl write_row-Binds rows) depth 10

write_set-Binds : (cv : ColumnValue) → Binds (write_set cv)
unfolding write_set
write_set-Binds cv = search parts

filter-Binds :
    (keyword : Text)
    → is_plain keyword ≡ true
    → (filter : Option WhereClause) → IsSoundFilter filter
    → Binds (optional filter (λ c. lit keyword ⊕ write_where c))
filter-Binds keyword p filter h =
    Binds-optional filter _
      (λ c e. Binds-append _ _ (Binds-lit keyword p) (write_where-Binds c (h c e)))

-- With a sound filter or none, an UPDATE of many rows has one placeholder for each argument.
pub build_bulk_update-Binds :
    (table : Text) (sets : List ColumnValue) (filter : Option WhereClause)
    → IsSoundFilter filter
    → Binds (build_bulk_update table sets filter)
unfolding build_bulk_update
build_bulk_update-Binds table sets filter h =
    search
      (
        parts,
        Binds-join write_set (codes ", ") refl write_set-Binds sets,
        filter-Binds (codes " WHERE ") refl filter h,
      )
      depth 10

pub build_bulk_delete-Binds :
    (table : Text) (filter : Option WhereClause)
    → IsSoundFilter filter
    → Binds (build_bulk_delete table filter)
unfolding build_bulk_delete
build_bulk_delete-Binds table filter h =
    search (parts, filter-Binds (codes " WHERE ") refl filter h) depth 10

pub build_bulk_soft_delete-Binds :
    (table : Text) (filter : Option WhereClause)
    → IsSoundFilter filter
    → Binds (build_bulk_soft_delete table filter)
unfolding build_bulk_soft_delete
build_bulk_soft_delete-Binds table filter h =
    search (parts, filter-Binds (codes " AND ") refl filter h) depth 12

write_excluded-Binds : (c : Text) → Binds (write_excluded c)
unfolding write_excluded
write_excluded-Binds c = search parts

-- An upsert, in either of its forms, has one placeholder for each value of its rows.
pub build_bulk_upsert-Binds :
    (table : Text) (columns : List Text) (rows : List (List Value))
    (conflict_cols update_cols : List Text) (do_nothing : Bool)
    → Binds (build_bulk_upsert table columns rows conflict_cols update_cols do_nothing)
unfolding build_bulk_upsert
build_bulk_upsert-Binds table columns rows conflict_cols update_cols do_nothing =
    search
      (
        parts,
        build_bulk_insert-Binds table columns rows,
        Binds-join write_excluded (codes ", ") refl write_excluded-Binds update_cols,
      )
      depth 10
