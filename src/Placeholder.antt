-- ===== src/Placeholder.antt =====
-- placeholder.go: raw SQL with numbered placeholders, rewritten for a database that reads only `?`.
use drel.Base.{
  ℕ, ◌≡◌, refl, ap, Bool, true, false, not, ◌&&◌, ◌||◌, [], ◌∷◌, ◌++◌, List, Text, ◌==◌, leb,
  if◌then◌else◌, arith, ◌∙◌,
}

unfoldable pub is_digit : ℕ → Bool
is_digit c = leb 48 c && leb c 57

unfoldable pub starts_digit : Text → Bool
unfolding is_digit
starts_digit [] = false
starts_digit (c ∷ t) = is_digit c

-- The loop over the bytes: whether it is inside single quotes, and whether the digits of a
-- placeholder that is written already are still to be passed over.
unfoldable pub rewrite_loop : Bool → Bool → Text → Text
unfolding is_digit starts_digit
rewrite_loop in_quote skip [] = []
rewrite_loop in_quote skip (c ∷ t) =
    let passed = rewrite_loop in_quote true t in
    let toggled = rewrite_loop (not in_quote) false t in
    let copied = rewrite_loop in_quote false t in
    if skip && is_digit c
    then passed
    else if c == 39
    then c ∷ toggled
    else if not in_quote && (c == 36 && starts_digit t)
    then 63 ∷ passed
    else c ∷ copied

unfoldable pub rewrite_placeholders : Text → Text
unfolding rewrite_loop
rewrite_placeholders sql = rewrite_loop false false sql

-- A statement in pieces: SQL without quotes and dollar signs, a string in single quotes, and a
-- placeholder with the digits of its number.
pub data Piece : Type 0 where
  plain quoted : Text → Piece
  param : ℕ → Text → Piece

unfoldable pub render : List Piece → Text
render [] = []
render (plain t ∷ ps) = t ++ render ps
render (quoted t ∷ ps) = 39 ∷ t ++ 39 ∷ render ps
render (param d ds ∷ ps) = 36 ∷ d ∷ ds ++ render ps

-- The pieces with a question mark for each placeholder, whatever its number.
unfoldable pub render_marks : List Piece → Text
render_marks [] = []
render_marks (plain t ∷ ps) = t ++ render_marks ps
render_marks (quoted t ∷ ps) = 39 ∷ t ++ 39 ∷ render_marks ps
render_marks (param d ds ∷ ps) = 63 ∷ render_marks ps

abbrev has_quote : Text → Bool
has_quote [] = false
has_quote (c ∷ t) = c == 39 || has_quote t

abbrev has_special : Text → Bool
has_special [] = false
has_special (c ∷ t) = (c == 39 || c == 36) || has_special t

abbrev all_digits : Text → Bool
all_digits [] = true
all_digits (c ∷ t) = is_digit c && all_digits t

-- What the pieces are said to be, and no digit follows a placeholder.
unfoldable pub ArePieces : List Piece → Type 0
ArePieces [] = Unit
ArePieces (plain t ∷ ps) = (has_special t ≡ false) × ArePieces ps
ArePieces (quoted t ∷ ps) = (has_quote t ≡ false) × ArePieces ps
ArePieces (param d ds ∷ ps) =
    (is_digit d ≡ true) × (all_digits ds ≡ true) × (starts_digit (render ps) ≡ false) × ArePieces ps

rewrite-plain :
    (t r : Text)
    → has_special t ≡ false
    → rewrite_loop false false (t ++ r) ≡ t ++ rewrite_loop false false r
unfolding rewrite_loop
rewrite-plain [] r h = refl
rewrite-plain (c ∷ t) r h = ground (arith, rewrite-plain t r)

rewrite-quoted :
    (t r : Text)
    → has_quote t ≡ false
    → rewrite_loop true false (t ++ 39 ∷ r) ≡ t ++ 39 ∷ rewrite_loop false false r
unfolding rewrite_loop
rewrite-quoted [] r h = refl
rewrite-quoted (c ∷ t) r h = ground (arith, rewrite-quoted t r)

rewrite-end :
    (r : Text) → starts_digit r ≡ false → rewrite_loop false true r ≡ rewrite_loop false false r
unfolding rewrite_loop starts_digit is_digit
rewrite-end [] h = refl
rewrite-end (c ∷ r) h = rw h refl

rewrite-digits :
    (ds r : Text)
    → all_digits ds ≡ true
    → starts_digit r ≡ false
    → rewrite_loop false true (ds ++ r) ≡ rewrite_loop false false r
unfolding rewrite_loop
rewrite-digits [] r h k = rewrite-end r k
rewrite-digits (d ∷ ds) r h k = ground (arith, rewrite-digits ds r)

-- For a statement of pieces, strings in single quotes among them, the rewritten statement has a
-- question mark for each placeholder and every other byte as it was: the numbers of the placeholders
-- have no part in it.
pub rewrite_placeholders_lem :
    (ps : List Piece) → ArePieces ps → rewrite_placeholders (render ps) ≡ render_marks ps
unfolding rewrite_placeholders render render_marks ArePieces
rewrite_placeholders_lem [] h = refl
rewrite_placeholders_lem (plain t ∷ ps) h =
    rewrite-plain t _ h.0 ∙ ap (λ r. t ++ r) (rewrite_placeholders_lem ps h.1)
rewrite_placeholders_lem (quoted t ∷ ps) h =
    ap (λ r. 39 ∷ r) (rewrite-quoted t _ h.0)
    ∙ ap (λ r. 39 ∷ t ++ 39 ∷ r) (rewrite_placeholders_lem ps h.1)
rewrite_placeholders_lem (param d ds ∷ ps) h =
    rw h.0 (ap (λ r. 63 ∷ r) (rewrite-digits ds _ h.1 h.2 ∙ rewrite_placeholders_lem ps h.3))
