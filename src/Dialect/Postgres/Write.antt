-- ===== src/Dialect/Postgres/Write.antt =====
-- `pkWhere` and the statements that write one row, for Postgres.
pub mod Sound
use drel.Base.{ℕ, suc, Option, none, some, [], ◌∷◌, ◌++◌, List, Text, codes, if◌then◌else◌, not}
use drel.Ast.{Value}
use drel.Dialect.Builder.{ColumnValue}
use drel.Dialect.Numbered.{
  Piece, sql, param, Numbered, Printed, lit, bind, fail, nothing, ◌⊕◌, when, join,
}
use drel.Dialect.Quote.{quote_ident}
use drel.Dialect.Sqlite.Select.{is_nil}
use drel.Dialect.Sqlite.Write.{dedup_last_wins}

abbrev pub comma_names : List Text → Numbered
comma_names = join (codes ", ") (λ c. lit (quote_ident c))

-- `col = $i` for each column of the key, joined by AND, and the next free number.
unfoldable pub pk_where : List Text → ℕ → List Piece × ℕ
pk_where [] i = ([], i)
pk_where (c ∷ []) i = (sql (quote_ident c ++ codes " = ") ∷ param i ∷ [], suc i)
pk_where (c ∷ d ∷ cs) i =
    let rest = pk_where (d ∷ cs) (suc i) in
    (sql (quote_ident c ++ codes " = ") ∷ param i ∷ sql (codes " AND ") ∷ rest.0, rest.1)

-- The filter is written, and `pkValues` are appended to the arguments.
unfoldable pub key_filter : List Text → List Value → Numbered
unfolding pk_where
key_filter columns values i =
    let filter = pk_where columns i in
    some (record { pieces = filter.0; args = values; next = filter.1 })

-- `pkColumns[0]`, a panic for an empty key.
unfoldable pub first_column : List Text → Numbered
first_column [] = fail
first_column (c ∷ cs) = lit (quote_ident c)

unfoldable pub build_insert : Text → List Text → List Value → List Text → Numbered
build_insert table columns values returning =
    lit (codes "INSERT INTO ")
    ⊕ lit (quote_ident table)
    ⊕ lit (codes " (")
    ⊕ comma_names columns
    ⊕ lit (codes ") VALUES (")
    ⊕ join (codes ", ") bind values
    ⊕ lit (codes ")")
    ⊕ when (not (is_nil returning)) (lit (codes " RETURNING ") ⊕ comma_names returning)

-- A raw expression stands in the text; any other value is bound.
assignment : Text → Value → Numbered
assignment column (Value.raw_expr expr) = lit (quote_ident column) ⊕ lit (codes " = ") ⊕ lit expr
assignment column v = lit (quote_ident column) ⊕ lit (codes " = ") ⊕ bind v

unfoldable pub assignments : List ColumnValue → Numbered
unfolding assignment
assignments = join (codes ", ") (λ cv. assignment cv.column cv.value)

unfoldable pub build_update : Text → List ColumnValue → List Text → List Value → Numbered
build_update table changes pk_columns pk_values =
    lit (codes "UPDATE ")
    ⊕ lit (quote_ident table)
    ⊕ lit (codes " SET ")
    ⊕ assignments (dedup_last_wins changes)
    ⊕ lit (codes " WHERE ")
    ⊕ key_filter pk_columns pk_values

unfoldable pub build_delete : Text → List Text → List Value → Numbered
build_delete table pk_columns pk_values =
    lit (codes "DELETE FROM ")
    ⊕ lit (quote_ident table)
    ⊕ lit (codes " WHERE ")
    ⊕ key_filter pk_columns pk_values

unfoldable pub build_soft_delete : Text → List Text → List Value → Numbered
build_soft_delete table pk_columns pk_values =
    lit (codes "UPDATE ")
    ⊕ lit (quote_ident table)
    ⊕ lit (codes " SET ")
    ⊕ lit (quote_ident (codes "deleted_at"))
    ⊕ lit (codes " = NOW() WHERE ")
    ⊕ key_filter pk_columns pk_values

-- ` AND "version" = ?` with the version that the row is expected to have.
abbrev version_guard : Text → ℕ → Numbered
version_guard column current =
    lit (codes " AND ") ⊕ lit (quote_ident column) ⊕ lit (codes " = ") ⊕ bind (Value.number current)

unfoldable pub build_delete_versioned : Text → List Text → List Value → Text → ℕ → Numbered
build_delete_versioned table pk_columns pk_values version_col current =
    lit (codes "DELETE FROM ")
    ⊕ lit (quote_ident table)
    ⊕ lit (codes " WHERE ")
    ⊕ key_filter pk_columns pk_values
    ⊕ version_guard version_col current
    ⊕ lit (codes " RETURNING ")
    ⊕ first_column pk_columns

unfoldable pub build_soft_delete_versioned : Text → List Text → List Value → Text → ℕ → Numbered
build_soft_delete_versioned table pk_columns pk_values version_col current =
    lit (codes "UPDATE ")
    ⊕ lit (quote_ident table)
    ⊕ lit (codes " SET ")
    ⊕ lit (quote_ident (codes "deleted_at"))
    ⊕ lit (codes " = NOW(), ")
    ⊕ lit (quote_ident version_col)
    ⊕ lit (codes " = ")
    ⊕ lit (quote_ident version_col)
    ⊕ lit (codes " + 1 WHERE ")
    ⊕ key_filter pk_columns pk_values
    ⊕ version_guard version_col current
    ⊕ lit (codes " RETURNING ")
    ⊕ first_column pk_columns

unfoldable pub build_update_versioned :
    Text → List ColumnValue → List Text → List Value → Text → ℕ → Numbered
build_update_versioned table changes pk_columns pk_values version_col current =
    lit (codes "UPDATE ")
    ⊕ lit (quote_ident table)
    ⊕ lit (codes " SET ")
    ⊕ assignments (dedup_last_wins changes)
    ⊕ lit (codes ", ")
    ⊕ lit (quote_ident version_col)
    ⊕ lit (codes " = ")
    ⊕ lit (quote_ident version_col)
    ⊕ lit (codes " + 1")
    ⊕ lit (codes " WHERE ")
    ⊕ key_filter pk_columns pk_values
    ⊕ version_guard version_col current
    ⊕ lit (codes " RETURNING ")
    ⊕ lit (quote_ident version_col)
