-- ===== src/Tests/Dialect.antt =====
-- The printers and the predicates at concrete inputs.
use drel.Base.{◌≡◌, refl, true, false, take, none, some, [], ◌∷◌, ◌++◌, List, Text, codes}
use drel.Ast.{Operator, Direction, NullsOrder, Value, SelectNode, query_select}
use drel.Lex.{Mode, marks}
use drel.Dialect.Builder.{ColumnValue, Binds, ◌⊕◌, join}
use drel.Dialect.Quote.{read_ident, quote_ident, read_ident-quote_ident, quote_col}
use drel.Dialect.Sqlite.Where.{write_where, write_comparison, operator_to_sql, normalize_arg}
use drel.Dialect.Sqlite.Write.{dedup_last_wins}
use drel.Dialect.Sqlite.Write.Dedup.{
  AreDistinct, columns_of, value_of, last_value, first_columns, dedup_last_wins_lem,
}
use drel.Predicate.{
  Predicate, new_comparison, new_in_comparison, or_any, negate, always, count_raw_placeholders,
  pk_predicate,
}
use drel.Predicate.Raw.{count_raw_placeholders-marks, count_raw_placeholders_dollar}
use drel.Predicate.Built.{Built, AllBuilt}
use drel.Predicate.Sound.{IsPlainRaw, Built-Binds}
use drel.Predicate.Key.{has_key, pk_predicate_lem}
use drel.Tests.Pagination.{same, lt, unknown, unrated}
use drel.Pagination.Sql.{passes}
use drel.Dialect.Sqlite.Where.{RawState, raw_loop}

-- A quote in an identifier is doubled.
quoted : quote_ident (codes "a\"b") ≡ codes "\"a\"\"b\""
unfolding quote_ident
quoted = refl

read_ident-quote_ident_example :
    read_ident (quote_ident (codes "a\"b") ++ codes " = ?") ≡ some (codes "a\"b", codes " = ?")
read_ident-quote_ident_example = read_ident-quote_ident (codes "a\"b") (codes " = ?") refl

abbrev pub age_or_name : Predicate
age_or_name = or_any (
    new_comparison (codes "age") Operator.op_gte (Value.number 18)
    ∷ negate (new_in_comparison (codes "users.name") (Value.text (codes "x") ∷ []))
    ∷ always
    ∷ [])

printed :
    write_where age_or_name.clause
    ≡ some (record {
      sql = codes "(\"age\" >= ? OR NOT (\"users\".\"name\" IN (?)))";
      args = Value.number 18 ∷ Value.text (codes "x") ∷ [];
    })
unfolding write_where write_comparison quote_col quote_ident or_any negate always new_comparison
    new_in_comparison join ◌⊕◌ operator_to_sql normalize_arg
printed = refl

age_or_name-Built : Built IsPlainRaw age_or_name
age_or_name-Built = Built.disjunction _ (
    AllBuilt.one_more (Built.compares _ _ _ (λ e. cc)) (
      AllBuilt.one_more (Built.negation _ (Built.in_list _ _))
        (AllBuilt.one_more Built.everything AllBuilt.none_left)))

Built-Binds_example : Binds (write_where age_or_name.clause)
Built-Binds_example = Built-Binds age_or_name-Built

abbrev pub key_columns : List Text
key_columns = codes "order_id" ∷ codes "line" ∷ []

abbrev pub key_values : List Value
key_values = Value.number 7 ∷ Value.number 2 ∷ []

pk_predicate_example :
    ((p : Predicate) × (pk_predicate key_columns key_values ≡ some p)
      × Binds (write_where p.clause)
      × (passes same lt unknown unrated p.clause ≡ has_key same unrated key_columns key_values))
pk_predicate_example = (pk_predicate_lem same lt unknown unrated key_columns key_values).0 refl

count_raw_placeholders-marks_example :
    let t = codes "a = '?' AND b = ?" in
    (count_raw_placeholders t ≡ marks Mode.code t)
    × ((args : List Value)
        → ((raw_loop RawState.normal false t args).args ≡ take (count_raw_placeholders t) args)
          × ((raw_loop RawState.normal false t args).sql ≡ t))
count_raw_placeholders-marks_example = count_raw_placeholders-marks (codes "a = '?' AND b = ?") refl

count_raw_placeholders_dollar_example :
    (count_raw_placeholders (codes "$$a = ?$$") ≡ 0)
    × (marks Mode.code (codes "$$a = ?$$") ≡ marks Mode.code (codes "a = ?"))
count_raw_placeholders_dollar_example = count_raw_placeholders_dollar (codes "a = ?") refl

abbrev pub ranked : SelectNode
ranked = record {
  table = codes "posts";
  columns = codes "id" ∷ codes "title" ∷ [];
  where_clause = none;
  order_by =
      record { column = codes "id"; direction = Direction.desc; nulls = NullsOrder.nulls_last }
      ∷ [];
  limit = some 20;
  offset = none;
  type = query_select;
  group_by = [];
  having = none;
  aggregates = [];
  partition_limit = some (record { partition_by = codes "user_id"; order_by = []; limit = 3 });
  distinct = true;
  joins = [];
}

abbrev pub twice_audited : List ColumnValue
twice_audited =
    record { column = codes "updated_by"; value = Value.text (codes "") }
    ∷ record { column = codes "name"; value = Value.text (codes "x") }
    ∷ record { column = codes "updated_at"; value = Value.raw_expr (codes "CURRENT_TIMESTAMP") }
    ∷ record { column = codes "updated_by"; value = Value.text (codes "me") }
    ∷ []

deduped :
    columns_of (dedup_last_wins twice_audited)
    ≡ codes "updated_by" ∷ codes "name" ∷ codes "updated_at" ∷ []
unfolding dedup_last_wins
deduped = refl

dedup_last_wins_example :
    (columns_of (dedup_last_wins twice_audited) ≡ first_columns [] twice_audited)
    × AreDistinct (columns_of (dedup_last_wins twice_audited))
    × ((c : Text) → value_of c (dedup_last_wins twice_audited) ≡ last_value c none twice_audited)
dedup_last_wins_example = dedup_last_wins_lem twice_audited
