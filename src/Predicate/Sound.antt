-- ===== src/Predicate/Sound.antt =====
-- What the constructors build can be printed.
use drel.Base.{
  ◌≡◌, ◌≢◌, refl, Bool, true, false, inl, inr, none, some, List, arith, Text, length, Bool-cases,
  ==_iff, ◌==◌, sym, ◌∙◌,
}
use mathlib.Core.Path.{subst}
use drel.Ast.{Operator, Value, WhereClause, logical_and, nil_slice}
use drel.Lex.{code, mode_after}
use drel.Dialect.Builder.{Binds}
use drel.Dialect.Sqlite.Where.{write_where}
use drel.Dialect.Sqlite.Where.Sound.{Sound, AllSound, write_where-Binds}
use drel.Predicate.{
  Predicate, new_comparison, new_in_comparison, new_not_in_comparison, new_between_comparison,
  new_null_check, clauses_of, and_all, or_any, negate, always, where_if, raw,
  count_raw_placeholders,
}
use drel.Predicate.Built.{Built, AllBuilt}
use drel.Predicate.Raw.{has_dollar, count_raw_placeholders-marks}

-- A raw fragment that SQLite reads as the count of placeholders does: it holds no dollar sign and closes
-- its quotes.
pub record IsPlainRaw (t : Text) : Type 0 where
  pub no_dollar : has_dollar t ≡ false
  pub closed : mode_after code t ≡ code

compares-Sound :
    (c : Text) (op : Operator) (v : Value)
    → op ≢ Operator.op_between
    → Sound (new_comparison c op v).clause
unfolding new_comparison Sound
compares-Sound c Operator.op_between v h = absurd (h refl)
compares-Sound c _ v h = tt

null_check-Sound : (c : Text) (b : Bool) → Sound (new_null_check c b).clause
unfolding new_null_check Sound
null_check-Sound c true = tt
null_check-Sound c false = tt

some-path : {p q : Predicate} → some p ≡ some q → p ≡ q
some-path e = cc

abbrev raw_fragment : Text → List Value → Predicate
raw_fragment t args = record {
  clause = WhereClause.clause none logical_and nil_slice (some t) args;
}

fragment-Sound :
    (t : Text) (args : List Value) (p : Predicate)
    → raw t args ≡ some p
    → IsPlainRaw t
    → Sound p.clause
unfolding raw Sound
fragment-Sound t args p e h = elim (Bool-cases (count_raw_placeholders t == length args)) [
  | inl ok ↦
      let accepted : some (raw_fragment t args) ≡ some p = rw (ok, raw) at e in
      subst (λ q. Sound q.clause) (some-path accepted)
        (record {
          closed = h.closed;
          counted =
              sym (count_raw_placeholders-marks t h.no_dollar).0
              ∙ (==_iff (count_raw_placeholders t) (length args)).0 ok;
        })
  | inr wrong ↦ absurd (cc (wrong, e))
]

mutual
  unfolding Sound new_in_comparison new_not_in_comparison new_between_comparison and_all or_any
      negate always where_if

  Built-Sound : {p : Predicate} → Built IsPlainRaw p → Sound p.clause
  Built-Sound (Built.compares c op v h) = compares-Sound c op v h
  Built-Sound (Built.in_list c vs) = tt
  Built-Sound (Built.not_in_list c vs) = tt
  Built-Sound (Built.between c low high) = omega arith
  Built-Sound (Built.null_check c b) = null_check-Sound c b
  Built-Sound (Built.conjunction ps h) = AllBuilt-AllSound h
  Built-Sound (Built.disjunction ps h) = AllBuilt-AllSound h
  Built-Sound (Built.negation p h) = Built-Sound h
  Built-Sound Built.everything = tt
  Built-Sound (Built.conditional true p h) = Built-Sound h
  Built-Sound (Built.conditional false p h) = tt
  Built-Sound (Built.fragment t args p e h) = fragment-Sound t args p e h

  AllBuilt-AllSound : {ps : List Predicate} → AllBuilt IsPlainRaw ps → AllSound (clauses_of ps)
  AllBuilt-AllSound AllBuilt.none_left = tt
  AllBuilt-AllSound (AllBuilt.one_more h hs) = (Built-Sound h, AllBuilt-AllSound hs)

pub Sound-clause : {p : Predicate} → Built IsPlainRaw p → Sound p.clause
Sound-clause h = Built-Sound h

-- Every predicate that a program can build whose raw fragments hold no dollar sign and close their quotes
-- is printed for SQLite without a panic, with one placeholder for each argument and every quote closed,
-- in a reading that takes comments for code.
pub Built-Binds : {p : Predicate} → Built IsPlainRaw p → Binds (write_where p.clause)
Built-Binds h = write_where-Binds _ (Built-Sound h)
