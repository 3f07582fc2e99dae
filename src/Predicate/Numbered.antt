-- ===== src/Predicate/Numbered.antt =====
-- What the constructors build can be printed for Postgres.
use drel.Base.{
  ◌≡◌, ◌≢◌, refl, Bool, true, false, inl, inr, none, some, List, arith, Text, length, Bool-cases,
  ==_iff, ◌==◌,
}
use mathlib.Core.Path.{subst}
use drel.Ast.{Operator, Value, WhereClause, logical_and, nil_slice}
use drel.Dialect.Numbered.{Prints}
use drel.Dialect.Postgres.Where.{write_where}
use drel.Dialect.Postgres.Where.Sound.{arguments, IsPrintable, AllPrintable, write_where-Prints}
use drel.Predicate.{
  Predicate, new_comparison, new_in_comparison, new_not_in_comparison, new_between_comparison,
  new_null_check, clauses_of, and_all, or_any, negate, always, where_if, raw,
  count_raw_placeholders,
}
use drel.Predicate.Built.{Built, AllBuilt}

-- Any raw fragment will do: the printer for Postgres reads it as the count of placeholders does.
abbrev pub AnyRaw : Text → Type 0
AnyRaw t = Unit {0}

compares-IsPrintable :
    (c : Text) (op : Operator) (v : Value)
    → op ≢ Operator.op_between
    → IsPrintable (new_comparison c op v).clause
unfolding new_comparison IsPrintable
compares-IsPrintable c Operator.op_between v h = absurd (h refl)
compares-IsPrintable c _ v h = tt

null_check-IsPrintable : (c : Text) (b : Bool) → IsPrintable (new_null_check c b).clause
unfolding new_null_check IsPrintable
null_check-IsPrintable c true = tt
null_check-IsPrintable c false = tt

abbrev fragment_of : Text → List Value → Predicate
fragment_of t args = record { clause = WhereClause.clause none logical_and nil_slice (some t) args }

some-path : {p q : Predicate} → some p ≡ some q → p ≡ q
some-path e = cc

fragment-IsPrintable :
    (t : Text) (args : List Value) (p : Predicate) → raw t args ≡ some p → IsPrintable p.clause
unfolding raw IsPrintable
fragment-IsPrintable t args p e = elim (Bool-cases (count_raw_placeholders t == length args)) [
  | inl ok ↦
      let accepted : some (fragment_of t args) ≡ some p = rw (ok, raw) at e in
      subst (λ q. IsPrintable q.clause) (some-path accepted)
        ((==_iff (count_raw_placeholders t) (length args)).0 ok)
  | inr wrong ↦ absurd (cc (wrong, e))
]

mutual
  unfolding IsPrintable new_in_comparison new_not_in_comparison new_between_comparison and_all
      or_any negate always where_if

  Built-IsPrintable : {p : Predicate} → Built AnyRaw p → IsPrintable p.clause
  Built-IsPrintable (Built.compares c op v h) = compares-IsPrintable c op v h
  Built-IsPrintable (Built.in_list c vs) = tt
  Built-IsPrintable (Built.not_in_list c vs) = tt
  Built-IsPrintable (Built.between c low high) = omega arith
  Built-IsPrintable (Built.null_check c b) = null_check-IsPrintable c b
  Built-IsPrintable (Built.conjunction ps h) = AllBuilt-AllPrintable h
  Built-IsPrintable (Built.disjunction ps h) = AllBuilt-AllPrintable h
  Built-IsPrintable (Built.negation p h) = Built-IsPrintable h
  Built-IsPrintable Built.everything = tt
  Built-IsPrintable (Built.conditional true p h) = Built-IsPrintable h
  Built-IsPrintable (Built.conditional false p h) = tt
  Built-IsPrintable (Built.fragment t args p e h) = fragment-IsPrintable t args p e

  AllBuilt-AllPrintable : {ps : List Predicate} → AllBuilt AnyRaw ps → AllPrintable (clauses_of ps)
  AllBuilt-AllPrintable AllBuilt.none_left = tt
  AllBuilt-AllPrintable (AllBuilt.one_more h hs) = (Built-IsPrintable h, AllBuilt-AllPrintable hs)

pub IsPrintable-clause : {p : Predicate} → Built AnyRaw p → IsPrintable p.clause
IsPrintable-clause h = Built-IsPrintable h

-- Every predicate that a program can build is printed for Postgres without a panic, raw fragments with
-- dollar quotes among them. From any first number the placeholders are numbered without a gap, and the
-- arguments are those of the comparisons and fragments, from left to right.
pub Built-Prints :
    {p : Predicate} → Built AnyRaw p → Prints (arguments p.clause) (write_where p.clause)
Built-Prints h = write_where-Prints _ (Built-IsPrintable h)
