-- ===== src/Pagination/Sql.antt =====
-- What a database makes of a clause: SQL's three truth values, and the rows that are after a
-- cursor in an ordering. This is the specification that the clause of a page is judged by.
use drel.Base.{
  ◌≡◌, Bool, true, false, ◌||◌, ◌&&◌, not, Option, none, some, [], ◌∷◌, List, Text, arith, is_some,
}
use drel.Ast.{
  Operator, Direction, asc, desc, nulls_default, nulls_first, nulls_last, Value, ComparisonNode,
  OrderByExpr, WhereClause, Clauses, clause, slice, no_clauses, cons_clause, logical_and,
  logical_or,
}
use drel.Pagination.{is_default}

abbrev pub Row : Type 0
Row = Text → Option Value

-- `none` is UNKNOWN.
unfoldable pub and3 : Option Bool → Option Bool → Option Bool
and3 (some false) b = some false
and3 (some true) b = b
and3 none (some false) = some false
and3 none b = none

unfoldable pub or3 : Option Bool → Option Bool → Option Bool
or3 (some true) b = some true
or3 (some false) b = b
or3 none (some true) = some true
or3 none b = none

unfoldable pub is_true : Option Bool → Bool
is_true (some b) = b
is_true none = false

pub is_true-and3 : (a b : Option Bool) → is_true (and3 a b) ≡ (is_true a && is_true b)
unfolding and3 is_true
is_true-and3 a b = ground arith

pub is_true-or3 : (a b : Option Bool) → is_true (or3 a b) ≡ (is_true a || is_true b)
unfolding or3 is_true
is_true-or3 a b = ground arith

unfoldable pub lift_compare : (Value → Value → Bool) → Option Value → Value → Option Bool
lift_compare f none v = none
lift_compare f (some w) v = some (f w v)

-- Where the ordering puts NULL; `places` says for a direction whether the database puts it first when
-- the query does not say.
unfoldable pub puts_first : (Direction → Bool) → OrderByExpr → Bool
puts_first places o = elim o.nulls [
  | nulls_default ↦ places o.direction
  | nulls_first ↦ true
  | nulls_last ↦ false
]

-- `same` and `lt` compare two values of a column. `other` is the truth of every clause that a page's
-- clause is not made of: SQL text, a negation, an empty clause and the other operators.
module _ (same lt : Value → Value → Bool) (other : WhereClause → Row → Option Bool) where
  unfoldable pub compare_truth : WhereClause → Row → ComparisonNode → Option Bool
  compare_truth whole row cmp = elim cmp.op [
    | Operator.op_is_null ↦ some (not (is_some (row cmp.column)))
    | Operator.op_is_not_null ↦ some (is_some (row cmp.column))
    | Operator.op_eq ↦ lift_compare same (row cmp.column) cmp.value
    | Operator.op_gt ↦ lift_compare (λ w v. lt v w) (row cmp.column) cmp.value
    | Operator.op_lt ↦ lift_compare lt (row cmp.column) cmp.value
    | _ ↦ other whole row
  ]

  unfoldable mutual
    pub truth : Row → WhereClause → Option Bool
    truth row (clause cmp op children (some raw) args) =
        other (clause cmp op children (some raw) args) row
    truth row (clause (some cmp) op children none args) =
        compare_truth (clause (some cmp) op children none args) row cmp
    truth row (clause none logical_and (slice cs) none args) = all_truth row cs
    truth row (clause none logical_or (slice cs) none args) = any_truth row cs
    truth row (clause none op children none args) = other (clause none op children none args) row

    pub all_truth : Row → Clauses → Option Bool
    all_truth row no_clauses = some true
    all_truth row (cons_clause c cs) = and3 (truth row c) (all_truth row cs)

    pub any_truth : Row → Clauses → Option Bool
    any_truth row no_clauses = some false
    any_truth row (cons_clause c cs) = or3 (truth row c) (any_truth row cs)

  -- A row is in the result when its WHERE clause is TRUE.
  unfoldable pub passes : Row → WhereClause → Bool
  passes row c = is_true (truth row c)

unfoldable pub past : (Value → Value → Bool) → Direction → Value → Value → Bool
past lt asc v w = lt v w
past lt desc v w = lt w v

module _ (lt : Value → Value → Bool) (places : Direction → Bool) where
  -- In one column's ordering, the second value is after the first.
  unfoldable pub after_value : OrderByExpr → Option Value → Option Value → Bool
  unfolding puts_first
  after_value o none none = false
  after_value o none (some w) = puts_first places o
  after_value o (some v) none = not (puts_first places o)
  after_value o (some v) (some w) = past lt o.direction v w

unfoldable pub tied : (Value → Value → Bool) → Option Value → Option Value → Bool
tied same none none = true
tied same (some v) (some w) = same w v
tied same v w = false

-- The second list is after the first in the ordering of the whole row.
unfoldable pub after :
    (same lt : Value → Value → Bool)
    → (Direction → Bool)
    → List OrderByExpr
    → List (Option Value)
    → List (Option Value)
    → Bool
after same lt places (o ∷ os) (v ∷ vs) (w ∷ ws) =
    let rest = after same lt places os vs ws in
    after_value lt places o v w || (tied same v w && rest)
after same lt places os vs ws = false

-- The values of a row under the ordering.
unfoldable pub key_of : List OrderByExpr → Row → List (Option Value)
key_of [] row = []
key_of (o ∷ os) row = row o.column ∷ key_of os row

-- A column whose NULL placement is not pinned has no NULL.
abbrev pub IsPlaced : OrderByExpr → Option Value → Type 0
IsPlaced o v = is_default o.nulls ≡ true → is_some v ≡ true

unfoldable pub ArePlaced : List OrderByExpr → List (Option Value) → Type 0
ArePlaced (o ∷ os) (v ∷ vs) = IsPlaced o v × ArePlaced os vs
ArePlaced [] [] = Unit
ArePlaced os vs = ⊥
