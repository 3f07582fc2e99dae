-- ===== src/Pagination/Offset.antt =====
-- Offset pages, and the columns of a decoded cursor.
use drel.Base.{
  ℕ, zero, suc, ◌+◌, ◌-◌, ◌*◌, ◌/◌, ◌%◌, ◌^◌, not, ◌≤◌, ◌<◌, ◌≡◌, ◌↔◌, refl, ap, ◌∙◌, Bool, true,
  false, ◌&&◌, List, [], ◌∷◌, map, Text, arith, length, ltb, ◌==◌, same_text_iff, length-map,
  ==_iff, Bool-cases, inl, inr,
}
use native.Mathlib.Omega.{div_fact, mod_fact}
use drel.Ast.{OrderByExpr}
use drel.Pagination.{
  build_offset_page, is_negative, quotient, CursorPayload, same_columns, validate_cursor_columns,
}

page_fits : (n o : ℕ) → (suc n * (o / suc n + 1 - 1) ≤ o) × (o < suc n * (o / suc n + 1))
page_fits n o = (grind (arith, div_fact o n), grind (arith, div_fact o n, mod_fact o n))

pages_hold :
    (n t : ℕ)
    → (t ≤ suc n * ((t + suc n - 1) / suc n)) × (suc n * ((t + suc n - 1) / suc n) < t + suc n)
pages_hold n t = (
  grind (arith, div_fact (t + suc n - 1) n, mod_fact (t + suc n - 1) n),
  grind (arith, div_fact (t + suc n - 1) n),
)

positive : (n : ℕ) → suc n < 2 ^ 63 → (ltb 0 (suc n) && not (is_negative (suc n))) ≡ true
positive n h = ground (arith, h)

quotient_small : (a d : ℕ) → a < 2 ^ 63 → quotient a d ≡ a / d
unfolding quotient
quotient_small a d h = let e : is_negative a ≡ false = ground (arith, h) in rw e refl

word : (n : ℕ) → n < 2 ^ 64 → n % 2 ^ 64 ≡ n
word n h = omega (arith, h)

less_one : (t n : ℕ) → t + suc n < 2 ^ 63 → (t + suc n + (2 ^ 64 - 1)) % 2 ^ 64 ≡ t + suc n - 1
less_one t n h = omega (arith, h)

page_number : (n o : ℕ) → o + 1 < 2 ^ 63 → (quotient o (suc n) + 1) % 2 ^ 64 ≡ o / suc n + 1
page_number n o h =
    rw (quotient_small o (suc n) (omega (arith, h)))
      (word (o / suc n + 1) (grind (arith, h, div_fact o n)))

page_count :
    (n t : ℕ)
    → t + suc n < 2 ^ 63
    → quotient ((t + suc n + (2 ^ 64 - 1)) % 2 ^ 64) (suc n) ≡ (t + suc n - 1) / suc n
page_count n t h = rw (less_one t n h) (quotient_small (t + suc n - 1) (suc n) (omega (arith, h)))

-- With a positive page size, and sums that a signed 64-bit number holds, nothing wraps around: the page is the one
-- that the offset lies in, the pages are as few as hold all the items, and there is more exactly when
-- items are left behind the fetched ones.
pub build_offset_page_lem :
    {A : Type 0} (items : List A) (total page_size offset : ℕ)
    → 0 < page_size
    → total + page_size < 2 ^ 63
    → offset + length items + 1 < 2 ^ 63
    → let p = build_offset_page items total page_size offset in
      (page_size * (p.page - 1) ≤ offset)
      × (offset < page_size * p.page)
      × (total ≤ page_size * p.total_pages)
      × (page_size * p.total_pages < total + page_size)
      × ((p.has_more ≡ true) ↔ (offset + length items < total))
unfolding build_offset_page
build_offset_page_lem items total zero offset h fits small = absurd (omega arith)
build_offset_page_lem items total (suc n) offset h fits small =
    let yes = positive n (omega (arith, fits)) in
    let number = page_number n offset (omega (arith, small)) in
    let count = page_count n total fits in
    (
      rw (yes, number) ((page_fits n offset).0),
      rw (yes, number) ((page_fits n offset).1),
      rw (yes, count) ((pages_hold n total).0),
      rw (yes, count) ((pages_hold n total).1),
      rw (word (offset + length items) (omega (arith, small)))
          ((λ e. ground (arith, e, fits, small)), (λ e. ground (arith, e, fits, small))),
    )

both : (a b : Bool) → (a && b) ≡ true → (a ≡ true) × (b ≡ true)
both a b h = ground arith

same_columns_iff :
    (cs : List Text) (os : List OrderByExpr)
    → length cs ≡ length os
    → (same_columns cs os ≡ true) ↔ (cs ≡ map (λ o. o.column) os)
unfolding same_columns
same_columns_iff [] [] h = ((λ e. refl), (λ e. refl))
same_columns_iff [] (o ∷ os) h = absurd (omega (arith, h))
same_columns_iff (c ∷ cs) [] h = absurd (omega (arith, h))
same_columns_iff (c ∷ cs) (o ∷ os) h =
    let rest = same_columns_iff cs os (omega (arith, h)) in
    let here = same_text_iff c o.column in
    (
      (λ e.
          ap (λ x. x ∷ cs) (here.0 (both _ _ e).0)
          ∙ ap (λ x. o.column ∷ x) (rest.0 (both _ _ e).1)),
      (λ e. rw (here.1 (cc e), rest.1 (cc e)) refl),
    )

-- A decoded cursor is accepted exactly when it has the columns of the ordering, in its order, and
-- one value for each of them.
pub validate_cursor_columns_lem :
    (p : CursorPayload) (order : List OrderByExpr)
    → (validate_cursor_columns p order ≡ true)
      ↔ ((p.columns ≡ map (λ o. o.column) order) × (length p.vals ≡ length order))
unfolding validate_cursor_columns
validate_cursor_columns_lem p order = (
  (λ h. elim (Bool-cases (length p.columns == length order)) [
    | inr n ↦ absurd (ground arith)
    | inl c ↦ elim (Bool-cases (length p.vals == length order)) [
      | inr n ↦ absurd (ground arith)
      | inl v ↦ (
        (same_columns_iff p.columns order ((==_iff _ _).0 c)).0 (ground arith),
        (==_iff (length p.vals) (length order)).0 v,
      )
    ]
  ]),
  (λ (cols, vals).
      let len : length p.columns ≡ length order =
        ap length cols ∙ length-map (λ o. o.column) order in
      rw
        (
          (==_iff (length p.columns) (length order)).1 len,
          (==_iff (length p.vals) (length order)).1 vals,
        )
        ((same_columns_iff p.columns order len).1 cols)),
)
