-- ===== src/Dialect/Sqlite/Write/Dedup.antt =====
-- `dedupLastWins` against its specification: each column once, in the order of first appearance,
-- with the last value that was assigned to it.
use drel.Base.{
  ℕ, zero, suc, ◌≡◌, refl, sym, ap, ◌∙◌, Bool, false, Option, none, some, [], ◌∷◌, ◌++◌, List, Text,
  length, All, arith, same_text, same_text_iff, if◌then◌else◌, Option-cases, Bool-cases, inl, inr,
  map, ◌||◌,
}
use drel.Ast.{Value}
use drel.Dialect.Builder.{ColumnValue}
use drel.Dialect.Sqlite.Write.{position, set, dedup_at, dedup_loop, dedup_last_wins}

-- Putting one assignment into a list: over the column's entry, or at the end.
unfoldable pub place : ColumnValue → List ColumnValue → List ColumnValue
place cv [] = cv ∷ []
place cv (x ∷ xs) = if same_text x.column cv.column then cv ∷ xs else x ∷ place cv xs

unfoldable pub place_all : List ColumnValue → List ColumnValue → List ColumnValue
place_all out [] = out
place_all out (cv ∷ changes) = place_all (place cv out) changes

-- Where the first entry of a column stands.
abbrev bump : Option ℕ → Option ℕ
bump none = none
bump (some i) = some (suc i)

find : Text → List ColumnValue → Option ℕ
find c [] = none
find c (x ∷ xs) = if same_text x.column c then some 0 else bump (find c xs)

place-set :
    (cv : ColumnValue) (out : List ColumnValue) (i : ℕ)
    → find cv.column out ≡ some i
    → place cv out ≡ set out i cv
unfolding find place set
place-set cv [] i h = ground arith
place-set cv (x ∷ xs) zero h = ground arith
place-set cv (x ∷ xs) (suc i) h = ground (arith, place-set cv xs i)

place-append :
    (cv : ColumnValue) (out : List ColumnValue)
    → find cv.column out ≡ none
    → place cv out ≡ out ++ cv ∷ []
unfolding find place
place-append cv [] h = refl
place-append cv (x ∷ xs) h = ground (arith, place-append cv xs)

find-set :
    (c : Text) (cv : ColumnValue) (out : List ColumnValue) (i : ℕ)
    → find cv.column out ≡ some i
    → find c (set out i cv) ≡ find c out
unfolding find set
find-set c cv [] i h = ground arith
find-set c cv (x ∷ xs) zero h =
    ground
      (arith, same_text_iff x.column cv.column, same_text_iff x.column c, same_text_iff cv.column c)
find-set c cv (x ∷ xs) (suc i) h = ground (arith, find-set c cv xs i)

find-append :
    (c : Text) (cv : ColumnValue) (out : List ColumnValue)
    → find cv.column out ≡ none
    → find c (out ++ cv ∷ []) ≡ (if same_text cv.column c then some (length out) else find c out)
unfolding find
find-append c cv [] h = refl
find-append c cv (x ∷ xs) h = ground (
  arith,
  find-append c cv xs,
  same_text_iff cv.column c,
  same_text_iff x.column c,
  same_text_iff x.column cv.column,
)

abbrev Indexes : List (Text × ℕ) → List ColumnValue → Type 0
Indexes idx out = (c : Text) → position c idx ≡ find c out

Indexes-new :
    (idx : List (Text × ℕ)) (out : List ColumnValue) (cv : ColumnValue)
    → Indexes idx out
    → find cv.column out ≡ none
    → Indexes ((cv.column, length out) ∷ idx) (out ++ cv ∷ [])
unfolding position
Indexes-new idx out cv h e c = rw (find-append c cv out e, h c) refl

-- The loop with its map of positions puts the assignments in place one by one.
dedup_loop-place_all :
    (idx : List (Text × ℕ)) (out changes : List ColumnValue)
    → Indexes idx out
    → dedup_loop (idx, out) changes ≡ place_all out changes
unfolding dedup_loop place_all dedup_at
dedup_loop-place_all idx out [] h = refl
dedup_loop-place_all idx out (cv ∷ changes) h = elim (Option-cases (find cv.column out)) [
  | inl absent ↦
      let step : dedup_at (position cv.column idx) idx out cv
          ≡ ((cv.column, length out) ∷ idx, place cv out) =
        rw (h cv.column, absent)
          (ap (λ l. ((cv.column, length out) ∷ idx, l)) (sym (place-append cv out absent))) in
      ap (λ st. dedup_loop st changes) step
      ∙ dedup_loop-place_all ((cv.column, length out) ∷ idx) (place cv out) changes
          (rw (place-append cv out absent) (Indexes-new idx out cv h absent))
  | inr (i, found) ↦
      let step : dedup_at (position cv.column idx) idx out cv ≡ (idx, place cv out) =
        rw (h cv.column, found) (ap (λ l. (idx, l)) (sym (place-set cv out i found))) in
      ap (λ st. dedup_loop st changes) step
      ∙ dedup_loop-place_all idx (place cv out) changes
          (rw (place-set cv out i found) (λ c. h c ∙ sym (find-set c cv out i found)))
]

dedup-place_all : (changes : List ColumnValue) → dedup_last_wins changes ≡ place_all [] changes
unfolding dedup_last_wins position find
dedup-place_all changes = dedup_loop-place_all [] [] changes (λ c. refl)

-- The value that a list gives a column, by its first entry.
unfoldable pub value_of : Text → List ColumnValue → Option Value
value_of c [] = none
value_of c (x ∷ xs) = if same_text x.column c then some x.value else value_of c xs

-- The value that a run of assignments leaves in a column, by its last one.
unfoldable pub last_value : Text → Option Value → List ColumnValue → Option Value
last_value c old [] = old
last_value c old (x ∷ xs) = last_value c (if same_text x.column c then some x.value else old) xs

-- The columns in the order in which they first appear.
abbrev has_column : Text → List Text → Bool
has_column c [] = false
has_column c (d ∷ ds) = same_text d c || has_column c ds

unfoldable pub add_column : List Text → Text → List Text
add_column cs c = if has_column c cs then cs else cs ++ c ∷ []

unfoldable pub first_columns : List Text → List ColumnValue → List Text
first_columns seen [] = seen
first_columns seen (x ∷ xs) = first_columns (add_column seen x.column) xs

abbrev pub columns_of : List ColumnValue → List Text
columns_of = map (λ cv. cv.column)

value_of-place :
    (c : Text) (cv : ColumnValue) (out : List ColumnValue)
    → value_of c (place cv out) ≡ (if same_text cv.column c then some cv.value else value_of c out)
unfolding value_of place
value_of-place c cv [] = refl
value_of-place c cv (x ∷ xs) = ground (
  arith,
  value_of-place c cv xs,
  same_text_iff x.column cv.column,
  same_text_iff x.column c,
  same_text_iff cv.column c,
)

value_of-place_all :
    (c : Text) (out changes : List ColumnValue)
    → value_of c (place_all out changes) ≡ last_value c (value_of c out) changes
unfolding place_all last_value
value_of-place_all c out [] = refl
value_of-place_all c out (cv ∷ changes) =
    value_of-place_all c (place cv out) changes
    ∙ ap (λ o. last_value c o changes) (value_of-place c cv out)

columns_of-place :
    (cv : ColumnValue) (out : List ColumnValue)
    → columns_of (place cv out) ≡ add_column (columns_of out) cv.column
unfolding place add_column
columns_of-place cv [] = refl
columns_of-place cv (x ∷ xs) = elim (Bool-cases (same_text x.column cv.column)) [
  | inl e ↦ rw (e, (same_text_iff x.column cv.column).0 e)
  | inr e ↦ rw e (ground (arith, columns_of-place cv xs))
]

columns_of-place_all :
    (out changes : List ColumnValue)
    → columns_of (place_all out changes) ≡ first_columns (columns_of out) changes
unfolding place_all first_columns
columns_of-place_all out [] = refl
columns_of-place_all out (cv ∷ changes) =
    columns_of-place_all (place cv out) changes
    ∙ ap (λ cs. first_columns cs changes) (columns_of-place cv out)

-- No column stands twice.
abbrev pub AreDistinct : List Text → Type 0
AreDistinct [] = Unit {0}
AreDistinct (c ∷ cs) = (has_column c cs ≡ false) × AreDistinct cs

has_column-append :
    (c d : Text) (cs : List Text) → has_column c (cs ++ d ∷ []) ≡ (has_column c cs || same_text d c)
has_column-append c d [] = ground arith
has_column-append c d (e ∷ cs) = ground (arith, has_column-append c d cs)

AreDistinct-append :
    (d : Text) (cs : List Text)
    → AreDistinct cs
    → has_column d cs ≡ false
    → AreDistinct (cs ++ d ∷ [])
AreDistinct-append d [] h e = (refl, tt)
AreDistinct-append d (c ∷ cs) h e = (
  ground (arith, has_column-append c d cs, same_text_iff c d, same_text_iff d c),
  AreDistinct-append d cs h.1 (ground arith),
)

AreDistinct-first_columns :
    (seen : List Text) (changes : List ColumnValue)
    → AreDistinct seen
    → AreDistinct (first_columns seen changes)
unfolding first_columns add_column
AreDistinct-first_columns seen [] h = h
AreDistinct-first_columns seen (x ∷ xs) h = elim (Bool-cases (has_column x.column seen)) [
  | inl old ↦ rw old (AreDistinct-first_columns seen xs h)
  | inr new ↦ rw new (
      AreDistinct-first_columns (seen ++ x.column ∷ []) xs (AreDistinct-append x.column seen h new))
]

All-place {ℓ} :
    (P : ColumnValue → Type ℓ) (cv : ColumnValue) (out : List ColumnValue)
    → P cv
    → All P out
    → All P (place cv out)
unfolding place
All-place P cv [] h k = (h, tt)
All-place P cv (x ∷ xs) h k = elim (Bool-cases (same_text x.column cv.column)) [
  | inl e ↦ rw e (h, k.1)
  | inr e ↦ rw e (k.0, All-place P cv xs h k.1)
]

All-place_all {ℓ} :
    (P : ColumnValue → Type ℓ) (out changes : List ColumnValue)
    → All P out
    → All P changes
    → All P (place_all out changes)
unfolding place_all
All-place_all P out [] h k = h
All-place_all P out (cv ∷ changes) h k =
    All-place_all P (place cv out) changes (All-place P cv out k.0 h) k.1

-- What holds of every assignment holds of those that are kept.
pub dedup-All {ℓ} :
    (P : ColumnValue → Type ℓ) (changes : List ColumnValue)
    → All P changes
    → All P (dedup_last_wins changes)
dedup-All P changes h = rw (dedup-place_all changes) (All-place_all P [] changes tt h)

-- The collapsed change set has the columns of the change set, each once and in the order of
-- first appearance, and gives each column the value of its last assignment.
pub dedup_last_wins_lem :
    (changes : List ColumnValue)
    → (columns_of (dedup_last_wins changes) ≡ first_columns [] changes)
      × AreDistinct (columns_of (dedup_last_wins changes))
      × ((c : Text) → value_of c (dedup_last_wins changes) ≡ last_value c none changes)
unfolding value_of
dedup_last_wins_lem changes = rw (dedup-place_all changes) (
  columns_of-place_all [] changes,
  rw (columns_of-place_all [] changes) (AreDistinct-first_columns [] changes tt),
  λ c. value_of-place_all c [] changes,
)
