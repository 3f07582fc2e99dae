-- ===== src/Pagination.antt =====
-- pagination.go: the clause of a keyset page, the ordering behind a cursor, and offset pages. A
-- cursor value is `none` where the source has nil.
pub mod Sql
pub mod Keyset
pub mod Mirror
pub mod Offset
use drel.Base.{
  ℕ, zero, suc, ◌+◌, ◌%◌, ◌^◌, ◌-◌, ◌-◌, ◌/◌, Bool, true, false, not, ◌||◌, ◌&&◌, Option, none,
  some, [], ◌∷◌, ◌++◌, List, Text, codes, ◌==◌, if◌then◌else◌, length, same_text, ltb, leb,
}
use drel.Ast.{
  Operator, Direction, asc, desc, NullsOrder, nulls_default, nulls_first, nulls_last, Value,
  ComparisonNode, OrderByExpr, WhereClause, LogicalOp, Children, Clauses, clause, nil_slice, slice,
  no_clauses, cons_clause, logical_and, logical_or,
}

-- A clause or list of clauses, `ErrCursorColumnNullable`, or a panic of the source.
pub data Outcome {ℓ} (A : Type ℓ) : Type ℓ where
  ok : A → Outcome A
  cursor_column_nullable panic : Outcome A

unfoldable pub and_then {ℓ κ} : {A : Type ℓ} {B : Type κ} → Outcome A → (A → Outcome B) → Outcome B
and_then (ok a) f = f a
and_then cursor_column_nullable f = cursor_column_nullable
and_then panic f = panic

unfoldable pub compare_to : Text → Operator → Option Value → WhereClause
compare_to column op none =
    clause (some (record { column = column; op = op; value = Value.text []; values = [] }))
      logical_and nil_slice none []
compare_to column op (some v) =
    clause (some (record { column = column; op = op; value = v; values = [] })) logical_and
      nil_slice none []

unfoldable pub is_default : NullsOrder → Bool
is_default nulls_default = true
is_default n = false

unfoldable pub is_last : NullsOrder → Bool
is_last nulls_last = true
is_last n = false

unfoldable pub keyset_eq_term : OrderByExpr → Option Value → Outcome WhereClause
keyset_eq_term o none =
    if is_default o.nulls
    then cursor_column_nullable
    else ok (compare_to o.column Operator.op_is_null none)
keyset_eq_term o (some v) = ok (compare_to o.column Operator.op_eq (some v))

unfoldable pub clauses : List WhereClause → Clauses
clauses [] = no_clauses
clauses (c ∷ cs) = cons_clause c (clauses cs)

unfoldable pub group : LogicalOp → List WhereClause → WhereClause
group op cs = clause none op (slice (clauses cs)) none []

unfoldable pub strict_op : Direction → Operator
strict_op asc = Operator.op_gt
strict_op desc = Operator.op_lt

-- `none` is the result `ok == false`: no row is past the cursor on this column.
unfoldable pub keyset_strict_term : OrderByExpr → Option Value → Outcome (Option WhereClause)
keyset_strict_term o none = elim o.nulls [
  | nulls_last ↦ ok none
  | nulls_first ↦ ok (some (compare_to o.column Operator.op_is_not_null none))
  | nulls_default ↦ cursor_column_nullable
]
keyset_strict_term o (some v) =
    let past = compare_to o.column (strict_op o.direction) (some v) in
    if is_last o.nulls
    then ok (some (group logical_or (past ∷ compare_to o.column Operator.op_is_null none ∷ [])))
    else ok (some past)

-- `for j := 0; j < k; j++`, over the columns before the k-th.
unfoldable pub keyset_eq_terms : List (OrderByExpr × Option Value) → Outcome (List WhereClause)
keyset_eq_terms [] = ok []
keyset_eq_terms (p ∷ ps) =
    let rest = keyset_eq_terms ps in
    and_then (keyset_eq_term p.0 p.1) (λ eq. and_then rest (λ eqs. ok (eq ∷ eqs)))

-- One term alone is used as it is; several make one clause.
unfoldable pub one_or : LogicalOp → List WhereClause → WhereClause
one_or op [] = group op []
one_or op (c ∷ []) = c
one_or op (c ∷ d ∷ cs) = group op (c ∷ d ∷ cs)

unfoldable pub add_term :
    List WhereClause → Option WhereClause → List WhereClause → List WhereClause
add_term eqs none rest = rest
add_term eqs (some strict) rest = one_or logical_and (eqs ++ strict ∷ []) ∷ rest

-- `for k := range order`; the first list holds the columns before the k-th with their values.
unfoldable pub keyset_terms :
    List (OrderByExpr × Option Value)
    → List OrderByExpr
    → List (Option Value)
    → Outcome (List WhereClause)
keyset_terms before [] vals = ok []
keyset_terms before (o ∷ os) [] = and_then (keyset_eq_terms before) (λ eqs. panic)
keyset_terms before (o ∷ os) (v ∷ vs) =
    let rest = keyset_terms (before ++ (o, v) ∷ []) os vs in
    and_then (keyset_eq_terms before) (λ eqs.
      and_then (keyset_strict_term o v)
        (λ strict. and_then rest (λ terms. ok (add_term eqs strict terms))))

unfoldable pub close_terms : List OrderByExpr → List WhereClause → Outcome WhereClause
close_terms [] [] = panic
close_terms (o ∷ os) [] = ok (compare_to o.column Operator.op_is_null none)
close_terms order (t ∷ ts) = ok (one_or logical_or (t ∷ ts))

unfoldable pub keyset_clause : List OrderByExpr → List (Option Value) → Outcome WhereClause
keyset_clause order vals = and_then (keyset_terms [] order vals) (close_terms order)

unfoldable pub orders : Text → List OrderByExpr → Bool
orders pk [] = false
orders pk (o ∷ os) = same_text o.column pk || orders pk os

-- The key column comes last, ascending, if it is not ordered yet.
unfoldable pub add_key : List OrderByExpr → Text → List OrderByExpr
add_key order_by pk =
    if orders pk order_by
    then order_by
    else order_by ++ record { column = pk; direction = asc; nulls = nulls_default } ∷ []

unfoldable pub cursor_order : List OrderByExpr → List Text → List OrderByExpr
cursor_order order_by [] = order_by
cursor_order order_by (pk ∷ pks) = cursor_order (add_key order_by pk) pks

unfoldable pub flip_direction : Direction → Direction
flip_direction asc = desc
flip_direction desc = asc

unfoldable pub flip_nulls : NullsOrder → NullsOrder
flip_nulls nulls_first = nulls_last
flip_nulls nulls_last = nulls_first
flip_nulls nulls_default = nulls_default

unfoldable pub invert_order : List OrderByExpr → List OrderByExpr
invert_order [] = []
invert_order (o ∷ os) =
    record { column = o.column; direction = flip_direction o.direction; nulls = flip_nulls o.nulls }
    ∷ invert_order os

pub record OffsetPage (A : Type 0) : Type 0 where
  pub items : List A
  pub total : ℕ
  pub page : ℕ
  pub page_size : ℕ
  pub total_pages : ℕ
  pub has_more : Bool

-- Go's `int`, 64 bits in two's complement as a number below 2^64.
abbrev pub is_negative : ℕ → Bool
is_negative n = leb (2 ^ 63) n

abbrev pub signed_lt : ℕ → ℕ → Bool
signed_lt a b =
    if is_negative a
    then (if is_negative b then ltb a b else true)
    else (if is_negative b then false else ltb a b)

-- The quotient by a positive divisor, towards 0.
unfoldable pub quotient : ℕ → ℕ → ℕ
quotient a d = if is_negative a then (2 ^ 64 - (2 ^ 64 - a) / d) % 2 ^ 64 else a / d

-- The numbers of the page are bit patterns, as the arguments are.
unfoldable pub build_offset_page : {A : Type 0} → List A → ℕ → ℕ → ℕ → OffsetPage A
unfolding quotient
build_offset_page items total page_size offset =
    let positive = ltb 0 page_size && not (is_negative page_size) in
    record {
      items = items;
      total = total;
      page = if positive then (quotient offset page_size + 1) % 2 ^ 64 else 1;
      page_size = page_size;
      total_pages =
          if positive then quotient ((total + page_size + (2 ^ 64 - 1)) % 2 ^ 64) page_size else 0;
      has_more = signed_lt ((offset + length items) % 2 ^ 64) total;
    }

pub record CursorPayload : Type 0 where
  pub columns : List Text
  pub vals : List (Option Value)

unfoldable pub same_columns : List Text → List OrderByExpr → Bool
same_columns (c ∷ cs) (o ∷ os) = same_text c o.column && same_columns cs os
same_columns cs os = true

-- `true` is a result without `ErrInvalidCursor`.
unfoldable pub validate_cursor_columns : CursorPayload → List OrderByExpr → Bool
validate_cursor_columns p order =
    if not (length p.columns == length order) || not (length p.vals == length order)
    then false
    else same_columns p.columns order
