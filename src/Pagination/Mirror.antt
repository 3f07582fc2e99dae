-- ===== src/Pagination/Mirror.antt =====
-- The ordering behind a cursor: backward pages, and the key columns that make it total.
use drel.Base.{
  ◌≡◌, refl, sym, ap, Bool, true, false, ◌||◌, Option, none, some, [], ◌∷◌, ◌++◌, List, Text, arith,
  is_some, Bool-cases, All, inl, inr, ◌∙◌, same_text, same_text_iff, same_text_refl,
}
use drel.Ast.{
  Direction, asc, desc, NullsOrder, nulls_default, nulls_first, nulls_last, Value, OrderByExpr,
  WhereClause,
}
use drel.Pagination.{
  ok, is_default, keyset_clause, invert_order, flip_direction, flip_nulls, cursor_order, add_key,
  orders,
}
use drel.Pagination.Sql.{
  Row, passes, past, puts_first, after_value, tied, after, key_of, IsPlaced, ArePlaced,
}
use drel.Pagination.Keyset.{keyset_clause_lem, at_end}

module _ (same lt : Value → Value → Bool) (places : Direction → Bool) where
  flip-after_value :
      (c : Text) (d : Direction) (n : NullsOrder) (v w : Option Value)
      → let o : OrderByExpr = record {
        column = c;
        direction = flip_direction d;
        nulls = flip_nulls n;
      } in
        let p : OrderByExpr = record { column = c; direction = d; nulls = n } in
        IsPlaced p v → IsPlaced p w → after_value lt places o v w ≡ after_value lt places p w v
  unfolding flip_direction flip_nulls after_value past puts_first is_default
  flip-after_value c asc nulls_default v w pv pw =
      let a = pv refl in let b = pw refl in ground (arith, a, b)
  flip-after_value c desc nulls_default v w pv pw =
      let a = pv refl in let b = pw refl in ground (arith, a, b)
  flip-after_value c asc nulls_first v w pv pw = ground arith
  flip-after_value c desc nulls_first v w pv pw = ground arith
  flip-after_value c asc nulls_last v w pv pw = ground arith
  flip-after_value c desc nulls_last v w pv pw = ground arith

  module _ (symmetric : (v w : Value) → same v w ≡ same w v) where
    tied_symmetric : (v w : Option Value) → tied same v w ≡ tied same w v
    unfolding tied
    tied_symmetric none none = refl
    tied_symmetric none (some w) = refl
    tied_symmetric (some v) none = refl
    tied_symmetric (some v) (some w) = symmetric w v

    after-invert_order :
        (os : List OrderByExpr) (vs ws : List (Option Value))
        → ArePlaced os vs
        → ArePlaced os ws
        → after same lt places (invert_order os) vs ws ≡ after same lt places os ws vs
    unfolding after invert_order ArePlaced
    after-invert_order [] vs ws pv pw = refl
    after-invert_order (o ∷ os) [] [] pv pw = refl
    after-invert_order (o ∷ os) [] (w ∷ ws) pv pw = refl
    after-invert_order (o ∷ os) (v ∷ vs) [] pv pw = refl
    after-invert_order (o ∷ os) (v ∷ vs) (w ∷ ws) pv pw =
        rw
          (
            flip-after_value o.column o.direction o.nulls v w pv.0 pw.0,
            tied_symmetric v w,
            after-invert_order os vs ws pv.1 pw.1,
          )
          refl

    flip-IsPlaced :
        (n : NullsOrder) (v : Option Value)
        → (is_default n ≡ true → is_some v ≡ true)
        → is_default (flip_nulls n) ≡ true
        → is_some v ≡ true
    unfolding flip_nulls is_default
    flip-IsPlaced nulls_default v p e = p e
    flip-IsPlaced nulls_first v p e = absurd (cc e)
    flip-IsPlaced nulls_last v p e = absurd (cc e)

    invert_order-ArePlaced :
        (os : List OrderByExpr) (vs : List (Option Value))
        → ArePlaced os vs
        → ArePlaced (invert_order os) vs
    unfolding ArePlaced invert_order
    invert_order-ArePlaced [] [] p = tt
    invert_order-ArePlaced [] (v ∷ vs) p = p
    invert_order-ArePlaced (o ∷ os) [] p = p
    invert_order-ArePlaced (o ∷ os) (v ∷ vs) p =
        (flip-IsPlaced o.nulls v p.0, invert_order-ArePlaced os vs p.1)

    key_of-invert_order :
        (os : List OrderByExpr) (row : Row) → key_of (invert_order os) row ≡ key_of os row
    unfolding key_of invert_order
    key_of-invert_order [] row = refl
    key_of-invert_order (o ∷ os) row = ap (λ r. row o.column ∷ r) (key_of-invert_order os row)

    -- With a symmetric equality of values, and NULLs of the cursor and the row only where the ordering
    -- pins their place: when the cursor is not on a last NULL of the inverted ordering in every column,
    -- the clause of a backward page is made, and the row passes it exactly when the cursor is after it in
    -- the ordering of the forward pages.
    pub keyset_clause-invert_order :
        (other : WhereClause → Row → Option Bool) (order : List OrderByExpr)
        (vals : List (Option Value)) (row : Row)
        → ArePlaced order vals
        → ArePlaced order (key_of order row)
        → at_end (invert_order order) vals ≡ false
        → (c : WhereClause) × (keyset_clause (invert_order order) vals ≡ ok c)
          × (passes same lt other row c ≡ after same lt places order (key_of order row) vals)
    keyset_clause-invert_order other order vals row placed there h =
        let same_key = key_of-invert_order order row in
        let inverted : ArePlaced (invert_order order) (key_of (invert_order order) row) =
          rw same_key (invert_order-ArePlaced order (key_of order row) there) in
        let (c, e, p) =
          keyset_clause_lem same lt places other (invert_order order) vals row
            (invert_order-ArePlaced order vals placed) inverted h in
        (
          c,
          e,
          p
              ∙ ap (λ k. after same lt places (invert_order order) vals k) same_key
              ∙ after-invert_order order vals (key_of order row) placed there,
        )

orders-append :
    (pk : Text) (os ps : List OrderByExpr) → orders pk os ≡ true → orders pk (os ++ ps) ≡ true
unfolding orders
orders-append pk [] ps h = absurd (cc h)
orders-append pk (o ∷ os) ps h = ground (arith, orders-append pk os ps)

orders-last :
    (pk : Text) (os : List OrderByExpr) (o : OrderByExpr)
    → same_text o.column pk ≡ true
    → orders pk (os ++ o ∷ []) ≡ true
unfolding orders
orders-last pk [] o h = ground arith
orders-last pk (p ∷ os) o h = ground (arith, orders-last pk os o h)

orders-add_key : (os : List OrderByExpr) (q : Text) → orders q (add_key os q) ≡ true
unfolding add_key
orders-add_key os q = elim (Bool-cases (orders q os)) [
  | inl seen ↦ rw (seen, seen) refl
  | inr new ↦ rw new (orders-last q os _ (same_text_refl q))
]

orders-other :
    (pk : Text) (os : List OrderByExpr) (q : Text)
    → orders pk os ≡ true
    → orders pk (add_key os q) ≡ true
unfolding add_key
orders-other pk os q h = elim (Bool-cases (orders q os)) [
  | inl seen ↦ rw seen h
  | inr new ↦ rw new (orders-append pk os _ h)
]

orders-cursor_order :
    (pk : Text) (os : List OrderByExpr) (pks : List Text)
    → orders pk os ≡ true
    → orders pk (cursor_order os pks) ≡ true
unfolding cursor_order
orders-cursor_order pk os [] h = h
orders-cursor_order pk os (q ∷ pks) h =
    orders-cursor_order pk (add_key os q) pks (orders-other pk os q h)

All-orders :
    (os : List OrderByExpr) (pks : List Text)
    → All (λ pk. orders pk (cursor_order os pks) ≡ true) pks
unfolding cursor_order
All-orders os [] = tt
All-orders os (q ∷ pks) =
    (orders-cursor_order q (add_key os q) pks (orders-add_key os q), All-orders (add_key os q) pks)

All-map {ℓ κ μ} :
    {A : Type ℓ} (P : A → Type κ) (Q : A → Type μ)
    → ((a : A) → P a → Q a)
    → (xs : List A) → All P xs
    → All Q xs
All-map P Q f [] h = tt
All-map P Q f (x ∷ xs) h = (f x h.0, All-map P Q f xs h.1)

module _ (same lt : Value → Value → Bool) (places : Direction → Bool)
    (sound : (v w : Value) → same v w ≡ true → v ≡ w)
    (connected : (v w : Value) → (same v w || (lt v w || lt w v)) ≡ true) where
  level :
      (c : Text) (d : Direction) (n : NullsOrder) (v w : Option Value)
      → let o : OrderByExpr = record { column = c; direction = d; nulls = n } in
        after_value lt places o v w ≡ false
        → after_value lt places o w v ≡ false
        → (v ≡ w) × (tied same v w ≡ true) × (tied same w v ≡ true)
  unfolding after_value past tied
  level c d n none none hv hw = (refl, refl, refl)
  level c d n none (some w) hv hw = absurd (ground (arith, hv, hw))
  level c d n (some v) none hv hw = absurd (ground (arith, hv, hw))
  level c asc n (some v) (some w) hv hw = (
    ap (λ x. some x) (sound v w (ground (arith, connected v w))),
    ground (arith, connected w v),
    ground (arith, connected v w),
  )
  level c desc n (some v) (some w) hv hw = (
    ap (λ x. some x) (sound v w (ground (arith, connected v w))),
    ground (arith, connected w v),
    ground (arith, connected v w),
  )

  agree :
      (os : List OrderByExpr) (a b : Row)
      → after same lt places os (key_of os a) (key_of os b) ≡ false
      → after same lt places os (key_of os b) (key_of os a) ≡ false
      → All (λ o. a o.column ≡ b o.column) os
  unfolding after key_of
  agree [] a b h k = tt
  agree (o ∷ os) a b h k =
      let (e, t, u) =
        level o.column o.direction o.nulls (a o.column) (b o.column) (ground arith)
          (ground arith) in
      (e, agree os a b (ground arith) (ground arith))

  at_column :
      (pk : Text) (os : List OrderByExpr) (a b : Row)
      → All (λ o. a o.column ≡ b o.column) os
      → orders pk os ≡ true
      → a pk ≡ b pk
  unfolding orders
  at_column pk [] a b e h = absurd (cc h)
  at_column pk (o ∷ os) a b e h = elim (Bool-cases (same_text o.column pk)) [
    | inl s ↦
        ap a (sym ((same_text_iff o.column pk).0 s)) ∙ e.0 ∙ ap b ((same_text_iff o.column pk).0 s)
    | inr n ↦ at_column pk os a b e.1 (ground arith)
  ]

  -- Where equal values are one value and any two values are equal or in order, wherever the database
  -- puts NULL by default: two rows of which neither is after the other in a cursor's ordering have the
  -- same primary key.
  pub cursor_order_lem :
      (order_by : List OrderByExpr) (pk_columns : List Text) (a b : Row)
      → let order = cursor_order order_by pk_columns in
        after same lt places order (key_of order a) (key_of order b) ≡ false
        → after same lt places order (key_of order b) (key_of order a) ≡ false
        → All (λ pk. a pk ≡ b pk) pk_columns
  cursor_order_lem order_by pk_columns a b h k =
      let same_keys = agree (cursor_order order_by pk_columns) a b h k in
      All-map _ _ (λ pk. at_column pk _ a b same_keys) pk_columns (All-orders order_by pk_columns)
