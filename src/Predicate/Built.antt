-- ===== src/Predicate/Built.antt =====
-- Which predicates a program can build.
use drel.Base.{◌≡◌, ◌≢◌, Bool, some, [], ◌∷◌, List, Text}
use drel.Ast.{Operator, Value}
use drel.Predicate.{
  Predicate, new_comparison, new_in_comparison, new_not_in_comparison, new_between_comparison,
  new_null_check, and_all, or_any, negate, always, where_if, raw, equalities, pk_of,
}

-- The predicates that a program can build: by the constructors, with a plain comparison never
-- asking for BETWEEN, and with raw fragments of which a condition is known.
mutual
  pub data Built (IsRaw : Text → Type 0) : Predicate → Type 0 where
    compares :
        (c : Text) (op : Operator) (v : Value)
        → op ≢ Operator.op_between
        → Built IsRaw (new_comparison c op v)
    in_list : (c : Text) (vs : List Value) → Built IsRaw (new_in_comparison c vs)
    not_in_list : (c : Text) (vs : List Value) → Built IsRaw (new_not_in_comparison c vs)
    between : (c : Text) (low high : Value) → Built IsRaw (new_between_comparison c low high)
    null_check : (c : Text) (is_null : Bool) → Built IsRaw (new_null_check c is_null)
    conjunction : (ps : List Predicate) → AllBuilt IsRaw ps → Built IsRaw (and_all ps)
    disjunction : (ps : List Predicate) → AllBuilt IsRaw ps → Built IsRaw (or_any ps)
    negation : (p : Predicate) → Built IsRaw p → Built IsRaw (negate p)
    everything : Built IsRaw always
    conditional : (b : Bool) (p : Predicate) → Built IsRaw p → Built IsRaw (where_if b p)
    fragment :
        (t : Text) (args : List Value) (p : Predicate)
        → raw t args ≡ some p
        → IsRaw t
        → Built IsRaw p

  pub data AllBuilt (IsRaw : Text → Type 0) : List Predicate → Type 0 where
    none_left : AllBuilt IsRaw []
    one_more :
        {p : Predicate} {ps : List Predicate}
        → Built IsRaw p
        → AllBuilt IsRaw ps
        → AllBuilt IsRaw (p ∷ ps)

module _ (IsRaw : Text → Type 0) where
  All-equalities-Built : (cs : List Text) (vs : List Value) → AllBuilt IsRaw (equalities cs vs)
  All-equalities-Built [] vs = AllBuilt.none_left
  All-equalities-Built (c ∷ cs) [] = AllBuilt.none_left
  All-equalities-Built (c ∷ cs) (v ∷ vs) =
      AllBuilt.one_more (Built.compares c Operator.op_eq v (λ e. cc)) (All-equalities-Built cs vs)

  pub pk_of-Built : (cs : List Text) (vs : List Value) → Built IsRaw (pk_of cs vs)
  unfolding pk_of
  pk_of-Built (c ∷ []) (v ∷ []) = Built.compares c Operator.op_eq v (λ e. cc)
  pk_of-Built cs vs = Built.conjunction (equalities cs vs) (All-equalities-Built cs vs)
