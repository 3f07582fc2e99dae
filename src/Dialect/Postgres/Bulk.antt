-- ===== src/Dialect/Postgres/Bulk.antt =====
-- The statements over many rows, for Postgres.
pub mod Sound
use drel.Base.{Bool, Option, List, Text, codes, if◌then◌else◌}
use drel.Ast.{Value, WhereClause}
use drel.Dialect.Builder.{ColumnValue}
use drel.Dialect.Numbered.{Numbered, lit, bind, nothing, ◌⊕◌, optional, join}
use drel.Dialect.Quote.{quote_ident}
use drel.Dialect.Postgres.Where.{write_where}
use drel.Dialect.Postgres.Write.{comma_names}

write_row : List Value → Numbered
write_row row = lit (codes "(") ⊕ join (codes ", ") bind row ⊕ lit (codes ")")

unfoldable pub build_bulk_insert : Text → List Text → List (List Value) → Numbered
unfolding write_row
build_bulk_insert table columns rows =
    lit (codes "INSERT INTO ")
    ⊕ lit (quote_ident table)
    ⊕ lit (codes " (")
    ⊕ comma_names columns
    ⊕ lit (codes ") VALUES ")
    ⊕ join (codes ", ") write_row rows

-- Unlike an update of one row, every value is bound, a raw expression too.
write_set : ColumnValue → Numbered
write_set cv = lit (quote_ident cv.column) ⊕ lit (codes " = ") ⊕ bind cv.value

unfoldable pub build_bulk_update : Text → List ColumnValue → Option WhereClause → Numbered
unfolding write_set
build_bulk_update table sets filter =
    lit (codes "UPDATE ")
    ⊕ lit (quote_ident table)
    ⊕ lit (codes " SET ")
    ⊕ join (codes ", ") write_set sets
    ⊕ optional filter (λ c. lit (codes " WHERE ") ⊕ write_where c)

unfoldable pub build_bulk_delete : Text → Option WhereClause → Numbered
build_bulk_delete table filter =
    lit (codes "DELETE FROM ")
    ⊕ lit (quote_ident table)
    ⊕ optional filter (λ c. lit (codes " WHERE ") ⊕ write_where c)

unfoldable pub build_bulk_soft_delete : Text → Option WhereClause → Numbered
build_bulk_soft_delete table filter =
    lit (codes "UPDATE ")
    ⊕ lit (quote_ident table)
    ⊕ lit (codes " SET ")
    ⊕ lit (quote_ident (codes "deleted_at"))
    ⊕ lit (codes " = NOW() WHERE ")
    ⊕ lit (quote_ident (codes "deleted_at"))
    ⊕ lit (codes " IS NULL")
    ⊕ optional filter (λ c. lit (codes " AND ") ⊕ write_where c)

write_excluded : Text → Numbered
write_excluded c = lit (quote_ident c) ⊕ lit (codes " = EXCLUDED.") ⊕ lit (quote_ident c)

unfoldable pub build_bulk_upsert :
    Text → List Text → List (List Value) → List Text → List Text → Bool → Numbered
unfolding write_excluded
build_bulk_upsert table columns rows conflict_cols update_cols do_nothing =
    build_bulk_insert table columns rows
    ⊕ lit (codes " ON CONFLICT (")
    ⊕ comma_names conflict_cols
    ⊕ (if do_nothing
        then lit (codes ") DO NOTHING")
        else lit (codes ") DO UPDATE SET ") ⊕ join (codes ", ") write_excluded update_cols)
