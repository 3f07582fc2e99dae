-- ===== src/Dialect/Sqlite/Write/Sound.antt =====
-- The statements that write one row are well formed.
use drel.Base.{ℕ, suc, ◌+◌, ◌≡◌, refl, [], ◌∷◌, List, Text, codes, length, All, arith, ◌<◌}
use drel.Ast.{Value}
use drel.Lex.{Holds, Holds-append, mode_after, marks}
use drel.Dialect.Builder.{
  ColumnValue, bind, join, Binds, binds, Binds-append, Binds-lit, Binds-closed, Binds-bind,
  Binds-when, Binds-join, Binds-join-All,
}
use drel.Dialect.Quote.{quote_ident, quote_ident-Holds, Binds-quote_ident}
use drel.Dialect.Sqlite.Write.{
  comma_names, key_filter, pk_where, first_column, build_insert, assignment, assignments,
  dedup_last_wins, build_update, build_delete, build_soft_delete, build_delete_versioned,
  build_soft_delete_versioned, build_update_versioned,
}
use drel.Dialect.Sqlite.Write.Dedup.{dedup-All}

comma_names-Binds : (cs : List Text) → Binds (comma_names cs)
comma_names-Binds = Binds-join _ (codes ", ") refl Binds-quote_ident

ruleset parts =
    (Binds-append, Binds-lit, Binds-quote_ident, Binds-when, Binds-bind, comma_names-Binds, refl)

values-Binds : (vs : List Value) → Binds (join (codes ", ") bind vs)
values-Binds = Binds-join bind (codes ", ") refl Binds-bind

-- An INSERT has one placeholder for each value, and closes every quote.
pub build_insert-Binds :
    (table : Text) (columns : List Text) (values : List Value) (returning : List Text)
    → Binds (build_insert table columns values returning)
unfolding build_insert
build_insert-Binds table columns values returning = search (parts, values-Binds) depth 12

eq_mark-Holds : Holds 1 (codes " = ?")
unfolding mode_after marks
eq_mark-Holds = record { closed = refl; counted = refl }

and-Holds : Holds 0 (codes " AND ")
unfolding mode_after marks
and-Holds = record { closed = refl; counted = refl }

empty-Holds : Holds 0 []
unfolding mode_after marks
empty-Holds = record { closed = refl; counted = refl }

pk_where-Holds : (cs : List Text) → Holds (length cs) (pk_where cs)
unfolding pk_where
pk_where-Holds [] = empty-Holds
pk_where-Holds (c ∷ []) =
    Holds-append 0 1 (quote_ident c) (codes " = ?") (quote_ident-Holds c) eq_mark-Holds
pk_where-Holds (c ∷ d ∷ cs) = rw (one_more (length (d ∷ cs))) (
    Holds-append 0 (1 + (0 + length (d ∷ cs))) (quote_ident c) _ (quote_ident-Holds c) (
      Holds-append 1 (0 + length (d ∷ cs)) (codes " = ?") _ eq_mark-Holds (
        Holds-append 0 (length (d ∷ cs)) (codes " AND ") (pk_where (d ∷ cs)) and-Holds
          (pk_where-Holds (d ∷ cs)))))
  where
    one_more : (n : ℕ) → suc n ≡ 0 + (1 + (0 + n))
    one_more n = omega arith

-- The key's filter with its values: as many values as columns.
key_filter-Binds :
    (cs : List Text) (vs : List Value) → length cs ≡ length vs → Binds (key_filter cs vs)
key_filter-Binds cs vs e = binds _ (rw (← e) (pk_where-Holds cs))

first_column-Binds : (cs : List Text) → 0 < length cs → Binds (first_column cs)
unfolding first_column
first_column-Binds [] h = absurd (omega arith)
first_column-Binds (c ∷ cs) h = Binds-quote_ident c

-- A raw expression closes its quotes and has no placeholder.
abbrev pub IsClean : Value → Type 0
IsClean (Value.raw_expr sql) = Holds 0 sql
IsClean v = Unit {0}

assignment-Binds : (column : Text) (v : Value) → IsClean v → Binds (assignment column v)
unfolding assignment
assignment-Binds column (Value.raw_expr sql) h = search (parts, Binds-closed sql h)
assignment-Binds column (Value.time i o) h = search parts
assignment-Binds column v h = search parts

abbrev pub AllClean : List ColumnValue → Type 0
AllClean = All (λ cv. IsClean cv.value)

assignments_All :
    (cvs : List ColumnValue) → AllClean cvs → All (λ cv. Binds (assignment cv.column cv.value)) cvs
assignments_All [] h = tt
assignments_All (cv ∷ cvs) h = (assignment-Binds cv.column cv.value h.0, assignments_All cvs h.1)

assignments-Binds :
    (changes : List ColumnValue) → AllClean changes → Binds (assignments (dedup_last_wins changes))
unfolding assignments
assignments-Binds changes h =
    Binds-join-All _ (codes ", ") refl (dedup_last_wins changes)
      (assignments_All (dedup_last_wins changes) (dedup-All (λ cv. IsClean cv.value) changes h))

module _ (table : Text) (pk_columns : List Text) (pk_values : List Value)
    (keyed : length pk_columns ≡ length pk_values) where
  -- With one value for each key column, a DELETE has one placeholder for each argument.
  pub build_delete-Binds : Binds (build_delete table pk_columns pk_values)
  unfolding build_delete
  build_delete-Binds = search (parts, key_filter-Binds pk_columns pk_values keyed) depth 8

  pub build_soft_delete-Binds : Binds (build_soft_delete table pk_columns pk_values)
  unfolding build_soft_delete
  build_soft_delete-Binds = search (parts, key_filter-Binds pk_columns pk_values keyed) depth 10

  -- With one value for each key column, and raw expressions that are closed, an UPDATE has one
  -- placeholder for each argument.
  pub build_update-Binds :
      (changes : List ColumnValue)
      → AllClean changes
      → Binds (build_update table changes pk_columns pk_values)
  unfolding build_update
  build_update-Binds changes clean =
      search (parts, key_filter-Binds pk_columns pk_values keyed, assignments-Binds changes clean)
        depth 10

  module _ (version_col : Text) (current : ℕ) where
    -- With one value for each key column, and SQL expressions among the changes that close their
    -- quotes and hold no placeholder, a versioned UPDATE has one placeholder for each argument.
    pub build_update_versioned-Binds :
        (changes : List ColumnValue)
        → AllClean changes
        → Binds (build_update_versioned table changes pk_columns pk_values version_col current)
    unfolding build_update_versioned
    build_update_versioned-Binds changes clean =
        search (parts, key_filter-Binds pk_columns pk_values keyed, assignments-Binds changes clean)
          depth 20

    -- With a key of at least one column and one value for each of its columns, a versioned DELETE
    -- has one placeholder for each argument.
    pub build_delete_versioned-Binds :
        0 < length pk_columns
        → Binds (build_delete_versioned table pk_columns pk_values version_col current)
    unfolding build_delete_versioned
    build_delete_versioned-Binds some_key =
        search
          (
            parts,
            key_filter-Binds pk_columns pk_values keyed,
            first_column-Binds pk_columns some_key,
          )
          depth 16

    -- With a key of at least one column and one value for each of its columns, a versioned soft
    -- delete has one placeholder for each argument.
    pub build_soft_delete_versioned-Binds :
        0 < length pk_columns
        → Binds (build_soft_delete_versioned table pk_columns pk_values version_col current)
    unfolding build_soft_delete_versioned
    build_soft_delete_versioned-Binds some_key =
        search
          (
            parts,
            key_filter-Binds pk_columns pk_values keyed,
            first_column-Binds pk_columns some_key,
          )
          depth 20
