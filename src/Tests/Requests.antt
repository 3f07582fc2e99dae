-- ===== src/Tests/Requests.antt =====
-- Whole requests at concrete inputs.
use drel.Base.{Text, ◌≡◌, Option, refl, none, some, [], ◌∷◌, codes}
use drel.Ast.{logical_and, nil_slice, Operator, Value, WhereClause}
use drel.Lex.{Holds, mode_after, marks}
use drel.Dialect.Builder.{Binds}
use drel.Dialect.Numbered.{finish, text_of, Printed, ◌⊕◌, all_of, Prints, PrintsFrom}
use drel.Dialect.Sqlite.Write.{dedup_last_wins}
use drel.Dialect.Postgres.Write.Sound.{bound_changes, bound}
use drel.Dialect.Request.{Request}
use drel.Dialect.Postgres.Where.{write_where}
use drel.Dialect.Postgres.Where.Sound.{arguments}
use drel.Dialect.Postgres.Request.{request_arguments, IsRequest, build-PrintsFrom}
use drel.Dialect.Sqlite.Request.{IsSoundRequest, build-Binds}
use drel.Predicate.{Predicate, new_comparison, count_loop, raw, or_any, count_raw_placeholders}
use drel.Predicate.Built.{Built, AllBuilt}
use drel.Predicate.Numbered.{AnyRaw, Built-Prints}
use drel.Tests.Dialect.{twice_audited, key_columns, key_values}

now_closed : Holds 0 (codes "CURRENT_TIMESTAMP")
unfolding mode_after marks
now_closed = record { closed = refl; counted = refl }

build-Binds_example : Binds (
    drel.Dialect.Sqlite.Request.build (
      Request.update_versioned
        (codes "lines")
        twice_audited
        key_columns
        key_values
        (codes "version")
        4))
build-Binds_example =
    build-Binds
      (Request.update_versioned (codes "lines") twice_audited key_columns key_values
        (codes "version") 4)
      (unfold IsSoundRequest in (refl, (tt, (tt, (now_closed, (tt, tt))))))

build-PrintsFrom_example :
    PrintsFrom 1
      (Value.text (codes "me")
        ∷ Value.text (codes "x")
        ∷ Value.number 7
        ∷ Value.number 2
        ∷ Value.number 4
        ∷ [])
      (drel.Dialect.Postgres.Request.build (
        Request.update_versioned
          (codes "lines")
          twice_audited
          key_columns
          key_values
          (codes "version")
          4))
unfolding request_arguments bound_changes all_of dedup_last_wins bound
build-PrintsFrom_example =
    build-PrintsFrom
      (Request.update_versioned (codes "lines") twice_audited key_columns key_values
        (codes "version") 4)
      (unfold IsRequest in refl)

abbrev dollar_fragment : Predicate
dollar_fragment = record {
  clause =
      WhereClause.clause none logical_and nil_slice (some (codes "body = $$a?$$ AND x = ?"))
        (Value.number 3 ∷ []);
}

accepted : raw (codes "body = $$a?$$ AND x = ?") (Value.number 3 ∷ []) ≡ some dollar_fragment
unfolding raw count_raw_placeholders count_loop
accepted = refl

abbrev dollar_or_age : Predicate
dollar_or_age =
    or_any (dollar_fragment ∷ new_comparison (codes "age") Operator.op_gt (Value.number 18) ∷ [])

dollar_or_age-Built : Built AnyRaw dollar_or_age
dollar_or_age-Built = Built.disjunction _ (
    AllBuilt.one_more
      (Built.fragment (codes "body = $$a?$$ AND x = ?") (Value.number 3 ∷ []) _ accepted tt)
      (AllBuilt.one_more (Built.compares _ _ _ (λ e. cc)) AllBuilt.none_left))

Built-Prints_example : Prints (arguments dollar_or_age.clause) (write_where dollar_or_age.clause)
Built-Prints_example = Built-Prints dollar_or_age-Built

-- The text that is sent, with the placeholder of the dollar quotes left alone.
abbrev sent : Option Printed → Text
sent none = []
sent (some r) = text_of r.pieces

dollar_or_age_sent :
    sent (finish (write_where dollar_or_age.clause))
    ≡ codes "(body = $$a?$$ AND x = $1 OR \"age\" > $2)"
unfolding finish write_where or_any ◌⊕◌ drel.Dialect.Postgres.Where.raw_loop new_comparison
    drel.Dialect.Postgres.Where.write_comparison text_of drel.Dialect.Builder.decimal
    drel.Dialect.Quote.quote_col drel.Dialect.Quote.quote_ident
    drel.Dialect.Postgres.Where.operator_to_sql
dollar_or_age_sent = refl
