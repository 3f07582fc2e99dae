-- ===== src/Dialect/Postgres/Write/Sound.antt =====
-- The arguments of the statements that write one row.
use drel.Base.{ℕ, suc, ◌+◌, ◌≡◌, ◌<◌, refl, ap, List, [], ◌∷◌, ◌++◌, Text, codes, length, arith}
use drel.Ast.{Value}
use drel.Dialect.Builder.{ColumnValue}
use drel.Dialect.Numbered.{
  Numbered, ◌⊕◌, lit, bind, numbers, count_up, Prints, prints_from, Silent, Prints-append,
  Prints-lit, Prints-bind, Prints-after, Prints-after3, Prints-skip, Prints-close, Prints-values,
  Prints-items, all_of, Silent-when, Silent-join,
}
use drel.Dialect.Quote.{quote_ident}
use drel.Dialect.Sqlite.Write.{dedup_last_wins}
use drel.Dialect.Postgres.Write.{
  comma_names, key_filter, pk_where, first_column, build_insert, assignment, assignments,
  build_update, build_delete, build_soft_delete, build_delete_versioned,
  build_soft_delete_versioned, build_update_versioned,
}

-- A raw expression stands in the text.
unfoldable pub bound : Value → List Value
bound (Value.raw_expr sql) = []
bound v = v ∷ []

unfoldable pub bound_changes : List ColumnValue → List Value
bound_changes changes = all_of (λ cv. bound cv.value) (dedup_last_wins changes)

pub comma_names-Silent : (cs : List Text) → Silent (comma_names cs)
comma_names-Silent = Silent-join _ (λ c. Prints-lit (quote_ident c)) (codes ", ")

pk_where-numbers : (cs : List Text) (i : ℕ) → numbers (pk_where cs i).0 ≡ count_up i (length cs)
unfolding pk_where numbers count_up
pk_where-numbers [] i = refl
pk_where-numbers (c ∷ []) i = refl
pk_where-numbers (c ∷ d ∷ cs) i = ap (λ r. i ∷ r) (pk_where-numbers (d ∷ cs) (suc i))

pk_where-next : (cs : List Text) (i : ℕ) → (pk_where cs i).1 ≡ i + length cs
unfolding pk_where
pk_where-next [] i = omega arith
pk_where-next (c ∷ []) i = omega arith
pk_where-next (c ∷ d ∷ cs) i = let h = pk_where-next (d ∷ cs) (suc i) in omega (arith, h)

key_filter-Prints :
    (cs : List Text) (vs : List Value) → length cs ≡ length vs → Prints vs (key_filter cs vs)
unfolding key_filter
key_filter-Prints cs vs e i =
    prints_from _ (rw (← e) (pk_where-numbers cs i)) refl (rw (← e) (pk_where-next cs i))

first_column-Silent : (cs : List Text) → 0 < length cs → Silent (first_column cs)
unfolding first_column
first_column-Silent [] h = absurd (omega arith)
first_column-Silent (c ∷ cs) h = Prints-lit _

ruleset silent = (Prints-skip, Prints-lit, Silent-when, comma_names-Silent)

pub build_insert-Prints :
    (table : Text) (columns : List Text) (values : List Value) (returning : List Text)
    → Prints values (build_insert table columns values returning)
unfolding build_insert
build_insert-Prints table columns values returning = Prints-after _ _ _ (
    Prints-after _ _ _ (
      Prints-after _ _ _ (
        Prints-skip _ _ _ (comma_names-Silent columns) (
          Prints-after _ _ _
            (Prints-close _ _ _ (Prints-values (codes ", ") values) (search silent))))))

assignment-Prints : (column : Text) (v : Value) → Prints (bound v) (assignment column v)
unfolding assignment bound
assignment-Prints column (Value.raw_expr sql) = search silent
assignment-Prints column (Value.time i o) = Prints-after _ _ _ (Prints-after _ _ _ (Prints-bind _))
assignment-Prints column v = Prints-after _ _ _ (Prints-after _ _ _ (Prints-bind _))

assignments-Prints :
    (changes : List ColumnValue)
    → Prints (bound_changes changes) (assignments (dedup_last_wins changes))
unfolding assignments bound_changes
assignments-Prints changes =
    Prints-items (codes ", ") _ _ (λ cv. assignment-Prints cv.column cv.value)
      (dedup_last_wins changes)

module _ (table : Text) (pk_columns : List Text) (pk_values : List Value)
    (keyed : length pk_columns ≡ length pk_values) where
  key-Prints : Prints pk_values (key_filter pk_columns pk_values)
  key-Prints = key_filter-Prints pk_columns pk_values keyed

  pub build_delete-Prints : Prints pk_values (build_delete table pk_columns pk_values)
  unfolding build_delete
  build_delete-Prints = Prints-after3 _ _ _ _ _ key-Prints

  pub build_soft_delete-Prints : Prints pk_values (build_soft_delete table pk_columns pk_values)
  unfolding build_soft_delete
  build_soft_delete-Prints = search (Prints-after, key-Prints) depth 10

  pub build_update-Prints :
      (changes : List ColumnValue)
      → Prints
          (bound_changes changes ++ pk_values)
          (build_update table changes pk_columns pk_values)
  unfolding build_update
  build_update-Prints changes = Prints-after _ _ _ (
      Prints-after _ _ _ (
        Prints-after _ _ _
          (Prints-append _ _ _ _ (assignments-Prints changes) (Prints-after _ _ _ key-Prints))))

  module _ (version_col : Text) (current : ℕ) where
    unfoldable pub guarded : List Value
    guarded = pk_values ++ Value.number current ∷ []

    -- The key, the expected version, and text.
    key_and_version :
        (rest : Numbered)
        → Silent rest
        → Prints guarded (
            key_filter pk_columns pk_values
            ⊕ (lit (codes " AND ")
                ⊕ lit (quote_ident version_col)
                ⊕ lit (codes " = ")
                ⊕ bind (Value.number current))
            ⊕ rest)
    unfolding guarded
    key_and_version rest h = Prints-append pk_values _ _ _ key-Prints (
        Prints-close _ _ _
          (Prints-after _ _ _ (Prints-after _ _ _ (Prints-after _ _ _ (Prints-bind _)))) h)

    pub build_update_versioned-Prints :
        (changes : List ColumnValue)
        → Prints
            (bound_changes changes ++ guarded)
            (build_update_versioned table changes pk_columns pk_values version_col current)
    unfolding build_update_versioned
    build_update_versioned-Prints changes = Prints-after _ _ _ (
        Prints-after _ _ _ (
          Prints-after _ _ _ (
            Prints-append _ _ _ _ (assignments-Prints changes) (
              Prints-after3 _ _ _ _ _ (
                Prints-after3 _ _ _ _ _
                  (key_and_version _ (Prints-after [] _ _ (Prints-lit _))))))))

    pub build_delete_versioned-Prints :
        0 < length pk_columns
        → Prints guarded (build_delete_versioned table pk_columns pk_values version_col current)
    unfolding build_delete_versioned
    build_delete_versioned-Prints some_key =
        search (Prints-after, key_and_version, silent, first_column-Silent pk_columns some_key)
          depth 12

    pub build_soft_delete_versioned-Prints :
        0 < length pk_columns
        → Prints guarded
            (build_soft_delete_versioned table pk_columns pk_values version_col current)
    unfolding build_soft_delete_versioned
    build_soft_delete_versioned-Prints some_key = Prints-after3 _ _ _ _ _ (
        Prints-after3 _ _ _ _ _ (
          Prints-after3 _ _ _ _ _
            (key_and_version _ (Prints-after [] _ _ (first_column-Silent pk_columns some_key)))))
