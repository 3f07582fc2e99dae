-- ===== src/Tests/Pagination.antt =====
-- Pages at concrete inputs. Values are ordered by their kind and then by their bytes.
use drel.Base.{
  ℕ, ◌≡◌, ◌↔◌, ◌≤◌, ◌<◌, ◌-◌, ◌*◌, refl, Bool, true, false, ◌||◌, ◌&&◌, not, Option, none, some, [],
  ◌∷◌, List, arith, Text, codes, same_text, same_text_iff, ltb, ◌==◌, if◌then◌else◌, All, length,
  is_some, map,
}
use drel.Ast.{Direction, NullsOrder, Value, OrderByExpr, WhereClause}
use drel.Pagination.{
  ok, keyset_clause, invert_order, cursor_order, add_key, orders, build_offset_page, CursorPayload,
  validate_cursor_columns, is_default, is_last,
}
use drel.Pagination.Sql.{Row, passes, after, key_of, ArePlaced, tied, after_value, past, puts_first}
use drel.Pagination.Keyset.{at_end, keyset_clause_lem, keyset_clause_end}
use drel.Pagination.Mirror.{keyset_clause-invert_order, cursor_order_lem}
use drel.Pagination.Offset.{build_offset_page_lem, validate_cursor_columns_lem}

abbrev pub bytes : Value → Text
bytes (Value.time i z) = 0 ∷ i ∷ z ∷ []
bytes (Value.raw_expr t) = 1 ∷ t
bytes (Value.number n) = 2 ∷ n ∷ []
bytes (Value.text t) = 3 ∷ t

abbrev pub before : Text → Text → Bool
before [] [] = false
before [] (b ∷ t) = true
before (a ∷ s) [] = false
before (a ∷ s) (b ∷ t) = ltb a b || (a == b && before s t)

abbrev pub same : Value → Value → Bool
same v w = same_text (bytes v) (bytes w)

abbrev pub lt : Value → Value → Bool
lt v w = before (bytes v) (bytes w)

bytes_injective : (v w : Value) → bytes v ≡ bytes w → v ≡ w
bytes_injective v w h = grind arith

same_text_symmetric : (s t : Text) → same_text s t ≡ same_text t s
same_text_symmetric [] [] = refl
same_text_symmetric [] (b ∷ t) = refl
same_text_symmetric (a ∷ s) [] = refl
same_text_symmetric (a ∷ s) (b ∷ t) = ground (arith, same_text_symmetric s t)

before_connected : (s t : Text) → (same_text s t || (before s t || before t s)) ≡ true
before_connected [] [] = refl
before_connected [] (b ∷ t) = refl
before_connected (a ∷ s) [] = refl
before_connected (a ∷ s) (b ∷ t) = ground (arith, before_connected s t)

abbrev pub unknown : WhereClause → Row → Option Bool
unknown c row = none

-- By rating with NULLs last and then by identifier, downwards.
abbrev by_rating : List OrderByExpr
by_rating =
    record { column = codes "rating"; direction = Direction.asc; nulls = NullsOrder.nulls_last }
    ∷ record { column = codes "id"; direction = Direction.desc; nulls = NullsOrder.nulls_default }
    ∷ []

abbrev cursor : List (Option Value)
cursor = some (Value.number 4) ∷ some (Value.number 17) ∷ []

abbrev pub unrated : Row
unrated t = if same_text t (codes "id") then some (Value.number 2) else none

-- NULLs first in an ascending order, last in a descending one.
abbrev sqlite_places : Direction → Bool
sqlite_places Direction.asc = true
sqlite_places Direction.desc = false

keyset_clause_example :
    (c : WhereClause) × (keyset_clause by_rating cursor ≡ ok c)
    × (passes same lt unknown unrated c
        ≡ after same lt sqlite_places by_rating cursor (key_of by_rating unrated))
unfolding ArePlaced at_end key_of is_default
keyset_clause_example =
    keyset_clause_lem same lt sqlite_places unknown by_rating cursor unrated
      ((λ e. refl), ((λ e. refl), tt)) ((λ e. e), ((λ e. refl), tt)) refl

-- A row without a rating is after every rated one.
unrated_last : after same lt sqlite_places by_rating cursor (key_of by_rating unrated) ≡ true
unfolding after key_of after_value puts_first
unrated_last = refl

abbrev by_rating_alone : OrderByExpr
by_rating_alone = record {
  column = codes "rating";
  direction = Direction.asc;
  nulls = NullsOrder.nulls_last;
}

keyset_clause_end_example :
    (c : WhereClause) × (keyset_clause (by_rating_alone ∷ []) (none ∷ []) ≡ ok c)
    × ((row : Row)
        → (passes same lt unknown row c ≡ not (is_some (row (codes "rating"))))
          × (after same lt sqlite_places
                (by_rating_alone ∷ [])
                (none ∷ [])
                (key_of (by_rating_alone ∷ []) row)
              ≡ false))
unfolding ArePlaced at_end is_default is_last
keyset_clause_end_example =
    keyset_clause_end same lt sqlite_places unknown by_rating_alone [] (none ∷ []) ((λ e. e), tt)
      refl

keyset_clause-invert_order_example :
    (c : WhereClause) × (keyset_clause (invert_order by_rating) cursor ≡ ok c)
    × (passes same lt unknown unrated c
        ≡ after same lt sqlite_places by_rating (key_of by_rating unrated) cursor)
unfolding ArePlaced at_end invert_order key_of is_default
keyset_clause-invert_order_example =
    keyset_clause-invert_order same lt sqlite_places
      (λ v w. same_text_symmetric (bytes v) (bytes w)) unknown by_rating cursor unrated
      ((λ e. refl), ((λ e. refl), tt)) ((λ e. e), ((λ e. refl), tt)) refl

abbrev ordered : List OrderByExpr
ordered =
    record { column = codes "rating"; direction = Direction.asc; nulls = NullsOrder.nulls_last }
    ∷ []

cursor_order_example : All (λ pk. unrated pk ≡ unrated pk) (codes "id" ∷ [])
unfolding cursor_order add_key orders ArePlaced key_of after after_value past tied is_default
cursor_order_example =
    cursor_order_lem same lt sqlite_places
      (λ v w h. bytes_injective v w ((same_text_iff (bytes v) (bytes w)).0 h))
      (λ v w. before_connected (bytes v) (bytes w)) ordered (codes "id" ∷ []) unrated unrated refl
      refl

abbrev fetched : List ℕ
fetched = 1 ∷ 2 ∷ 3 ∷ []

build_offset_page_example :
    let p = build_offset_page fetched 7 3 3 in
    (3 * (p.page - 1) ≤ 3)
    × (3 < 3 * p.page)
    × (7 ≤ 3 * p.total_pages)
    × (3 * p.total_pages < 10)
    × ((p.has_more ≡ true) ↔ (6 < 7))
build_offset_page_example =
    build_offset_page_lem fetched 7 3 3 (omega arith) (omega arith) (omega arith)

-- The largest page size: the sum wraps around, and a negative number of pages comes out.
wrapped : (build_offset_page fetched 3 9223372036854775807 0).total_pages ≡ 18446744073709551615
unfolding build_offset_page
wrapped = refl

abbrev payload : CursorPayload
payload = record { columns = codes "rating" ∷ codes "id" ∷ []; vals = cursor }

validate_cursor_columns_example :
    (validate_cursor_columns payload by_rating ≡ true)
    ↔ ((payload.columns ≡ map (λ o. o.column) by_rating) × (length payload.vals ≡ length by_rating))
validate_cursor_columns_example = validate_cursor_columns_lem payload by_rating
