-- ===== src/Dialect/Sqlite/Write.antt =====
-- `dedupLastWins`, `pkWhere` and the statements that write one row.
pub mod Dedup
pub mod Sound
use drel.Base.{
  ℕ, zero, suc, ◌+◌, Bool, true, false, not, Option, none, some, [], ◌∷◌, ◌++◌, List, Text, codes,
  if◌then◌else◌, length, same_text,
}
use drel.Ast.{Value}
use drel.Dialect.Builder.{Result, ColumnValue, Sql, lit, bind, nothing, ◌⊕◌, when, join}
use drel.Dialect.Quote.{quote_ident}

-- The map from a column to its position in `out`.
pub position : Text → List (Text × ℕ) → Option ℕ
position c [] = none
position c ((d, i) ∷ idx) = if same_text d c then some i else position c idx

pub set : List ColumnValue → ℕ → ColumnValue → List ColumnValue
set [] i cv = []
set (x ∷ xs) zero cv = cv ∷ xs
set (x ∷ xs) (suc i) cv = x ∷ set xs i cv

-- The loop with its two variables, `idx` and `out`.
pub dedup_at :
    Option ℕ → List (Text × ℕ) → List ColumnValue → ColumnValue → List (Text × ℕ) × List ColumnValue
unfolding set
dedup_at (some i) idx out cv = (idx, set out i cv)
dedup_at none idx out cv = ((cv.column, length out) ∷ idx, out ++ cv ∷ [])

pub dedup_loop : List (Text × ℕ) × List ColumnValue → List ColumnValue → List ColumnValue
unfolding dedup_at position
dedup_loop st [] = st.1
dedup_loop st (cv ∷ changes) = dedup_loop (dedup_at (position cv.column st.0) st.0 st.1 cv) changes

unfoldable pub dedup_last_wins : List ColumnValue → List ColumnValue
unfolding dedup_loop
dedup_last_wins changes = dedup_loop ([], []) changes

abbrev pub comma_names : List Text → Sql
comma_names = join (codes ", ") (λ c. lit (quote_ident c))

-- `col = ?` for each column of the key, joined by AND.
unfoldable pub pk_where : List Text → Text
pk_where [] = []
pk_where (c ∷ []) = quote_ident c ++ codes " = ?"
pk_where (c ∷ d ∷ cs) = quote_ident c ++ (codes " = ?" ++ (codes " AND " ++ pk_where (d ∷ cs)))

-- The filter is written, and `pkValues` are appended to the arguments.
abbrev pub key_filter : List Text → List Value → Sql
key_filter columns values = some (record { sql = pk_where columns; args = values })

-- `pkColumns[0]`, a panic for an empty key.
unfoldable pub first_column : List Text → Sql
first_column [] = none
first_column (c ∷ cs) = lit (quote_ident c)

abbrev is_nil {ℓ} : {A : Type ℓ} → List A → Bool
is_nil [] = true
is_nil (x ∷ xs) = false

unfoldable pub build_insert : Text → List Text → List Value → List Text → Sql
build_insert table columns values returning =
    lit (codes "INSERT INTO ")
    ⊕ lit (quote_ident table)
    ⊕ lit (codes " (")
    ⊕ comma_names columns
    ⊕ lit (codes ") VALUES (")
    ⊕ join (codes ", ") bind values
    ⊕ lit (codes ")")
    ⊕ when (not (is_nil returning)) (lit (codes " RETURNING ") ⊕ comma_names returning)

-- A raw expression stands in the text; any other value is bound.
assignment : Text → Value → Sql
assignment column (Value.raw_expr sql) = lit (quote_ident column) ⊕ lit (codes " = ") ⊕ lit sql
assignment column v = lit (quote_ident column) ⊕ lit (codes " = ") ⊕ bind v

unfoldable pub assignments : List ColumnValue → Sql
unfolding assignment
assignments = join (codes ", ") (λ cv. assignment cv.column cv.value)

unfoldable pub build_update : Text → List ColumnValue → List Text → List Value → Sql
build_update table changes pk_columns pk_values =
    lit (codes "UPDATE ")
    ⊕ lit (quote_ident table)
    ⊕ lit (codes " SET ")
    ⊕ assignments (dedup_last_wins changes)
    ⊕ lit (codes " WHERE ")
    ⊕ key_filter pk_columns pk_values

unfoldable pub build_delete : Text → List Text → List Value → Sql
build_delete table pk_columns pk_values =
    lit (codes "DELETE FROM ")
    ⊕ lit (quote_ident table)
    ⊕ lit (codes " WHERE ")
    ⊕ key_filter pk_columns pk_values

unfoldable pub build_soft_delete : Text → List Text → List Value → Sql
build_soft_delete table pk_columns pk_values =
    lit (codes "UPDATE ")
    ⊕ lit (quote_ident table)
    ⊕ lit (codes " SET ")
    ⊕ lit (quote_ident (codes "deleted_at"))
    ⊕ lit (codes " = CURRENT_TIMESTAMP WHERE ")
    ⊕ key_filter pk_columns pk_values

-- ` AND "version" = ?` with the version that the row is expected to have.
abbrev version_guard : Text → ℕ → Sql
version_guard column current =
    lit (codes " AND ") ⊕ lit (quote_ident column) ⊕ lit (codes " = ") ⊕ bind (Value.number current)

unfoldable pub build_delete_versioned : Text → List Text → List Value → Text → ℕ → Sql
build_delete_versioned table pk_columns pk_values version_col current =
    lit (codes "DELETE FROM ")
    ⊕ lit (quote_ident table)
    ⊕ lit (codes " WHERE ")
    ⊕ key_filter pk_columns pk_values
    ⊕ version_guard version_col current
    ⊕ lit (codes " RETURNING ")
    ⊕ first_column pk_columns

unfoldable pub build_soft_delete_versioned : Text → List Text → List Value → Text → ℕ → Sql
build_soft_delete_versioned table pk_columns pk_values version_col current =
    lit (codes "UPDATE ")
    ⊕ lit (quote_ident table)
    ⊕ lit (codes " SET ")
    ⊕ lit (quote_ident (codes "deleted_at"))
    ⊕ lit (codes " = CURRENT_TIMESTAMP, ")
    ⊕ lit (quote_ident version_col)
    ⊕ lit (codes " = ")
    ⊕ lit (quote_ident version_col)
    ⊕ lit (codes " + 1 WHERE ")
    ⊕ key_filter pk_columns pk_values
    ⊕ version_guard version_col current
    ⊕ lit (codes " RETURNING ")
    ⊕ first_column pk_columns

unfoldable pub build_update_versioned :
    Text → List ColumnValue → List Text → List Value → Text → ℕ → Sql
build_update_versioned table changes pk_columns pk_values version_col current =
    lit (codes "UPDATE ")
    ⊕ lit (quote_ident table)
    ⊕ lit (codes " SET ")
    ⊕ assignments (dedup_last_wins changes)
    ⊕ lit (codes ", ")
    ⊕ lit (quote_ident version_col)
    ⊕ lit (codes " = ")
    ⊕ lit (quote_ident version_col)
    ⊕ lit (codes " + 1")
    ⊕ lit (codes " WHERE ")
    ⊕ key_filter pk_columns pk_values
    ⊕ version_guard version_col current
    ⊕ lit (codes " RETURNING ")
    ⊕ lit (quote_ident version_col)
