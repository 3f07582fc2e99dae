-- ===== src/Lex.antt =====
-- How a database reads a statement: text in single quotes is a string, text in double quotes is an
-- identifier, and a `?` outside both is a placeholder. A doubled quote inside quotes closes and
-- opens again, so no look-ahead is needed. The printers' output is judged by this reading.
use drel.Base.{
  ℕ, suc, ◌+◌, ◌≡◌, refl, Bool, false, [], ◌∷◌, ◌++◌, arith, Text, codes, ◌==◌, if◌then◌else◌,
}

pub data Mode : Type 0 where
  code in_string in_ident : Mode

unfoldable pub advance : Mode → ℕ → Mode
advance code c = if c == 39 then in_string else if c == 34 then in_ident else code
advance in_string c = if c == 39 then code else in_string
advance in_ident c = if c == 34 then code else in_ident

unfoldable pub is_mark : Mode → ℕ → Bool
is_mark code c = c == 63
is_mark in_string c = false
is_mark in_ident c = false

-- The mode after a text.
unfoldable pub mode_after : Mode → Text → Mode
unfolding advance
mode_after m [] = m
mode_after m (c ∷ t) = mode_after (advance m c) t

-- The number of placeholders of a text.
unfoldable pub marks : Mode → Text → ℕ
unfolding advance is_mark
marks m [] = 0
marks m (c ∷ t) = let rest = marks (advance m c) t in if is_mark m c then suc rest else rest

pub mode_after-append :
    (m : Mode) (s t : Text) → mode_after m (s ++ t) ≡ mode_after (mode_after m s) t
unfolding mode_after
mode_after-append m [] t = refl
mode_after-append m (c ∷ s) t = mode_after-append (advance m c) s t

pub marks-append : (m : Mode) (s t : Text) → marks m (s ++ t) ≡ marks m s + marks (mode_after m s) t
unfolding marks mode_after
marks-append m [] t = omega arith
marks-append m (c ∷ s) t = ground (arith, marks-append (advance m c) s t)

-- Read from code, the text has this many placeholders and ends in code.
pub record Holds (n : ℕ) (t : Text) : Type 0 where
  pub closed : mode_after code t ≡ code
  pub counted : marks code t ≡ n

pub Holds-append : (m n : ℕ) (s t : Text) → Holds m s → Holds n t → Holds (m + n) (s ++ t)
Holds-append m n s t hs ht = record {
  closed = rw (mode_after-append code s t, hs.closed) ht.closed;
  counted = rw (marks-append code s t, hs.closed) (omega (arith, hs.counted, ht.counted));
}

Holds-codes : Holds 1 (codes " WHERE x = ?")
unfolding mode_after marks
Holds-codes = record { closed = refl; counted = refl }
