-- ===== src/Dialect/Quote.antt =====
-- `quoteIdent` and `quoteCol`, which are the same in both dialects.
use drel.Base.{
  ℕ, ◌≡◌, refl, ap, false, Option, none, some, [], ◌∷◌, ◌++◌, arith, Text, codes, ◌==◌,
  if◌then◌else◌, append_assoc, Bool-cases, inl, inr, head_is, sym, ◌∙◌, ==_iff,
}
use drel.Lex.{in_ident, mode_after, marks, mode_after-append, marks-append, Holds, Holds-append}
use drel.Dialect.Builder.{lit, Binds, binds}

-- `strings.ReplaceAll(name, "\"", "\"\"")`
double_quotes : Text → Text
double_quotes [] = []
double_quotes (c ∷ t) = let r = double_quotes t in if c == 34 then 34 ∷ 34 ∷ r else c ∷ r

unfoldable pub quote_ident : Text → Text
unfolding double_quotes
quote_ident name = 34 ∷ double_quotes name ++ 34 ∷ []

-- The text before the first dot and the text behind it.
split_dot : Text → Option (Text × Text)
split_dot [] = none
split_dot (c ∷ t) =
    if c == 46
    then some ([], t)
    else elim (split_dot t) [ none ↦ none | some (a, b) ↦ some (c ∷ a, b) ]

quote_parts : Text → Option (Text × Text) → Text
quote_parts name none = quote_ident name
quote_parts name (some (a, b)) = quote_ident a ++ (codes "." ++ quote_ident b)

unfoldable pub quote_col : Text → Text
unfolding split_dot quote_parts
quote_col name = quote_parts name (split_dot name)

-- How a database reads a quoted identifier: up to a quote that is not doubled. It returns the name
-- and the rest of the statement.
abbrev push : ℕ → Option (Text × Text) → Option (Text × Text)
push c none = none
push c (some (name, rest)) = some (c ∷ name, rest)

read_body : Text → Option (Text × Text)
read_body [] = none
read_body (a ∷ []) = if a == 34 then some ([], []) else none
read_body (a ∷ b ∷ t) =
    let skipped = push 34 (read_body t) in
    let next = push a (read_body (b ∷ t)) in
    if a == 34 then (if b == 34 then skipped else some ([], b ∷ t)) else next

unfoldable pub read_ident : Text → Option (Text × Text)
unfolding read_body
read_ident [] = none
read_ident (c ∷ t) = if c == 34 then read_body t else none

read_body-end : (rest : Text) → head_is 34 rest ≡ false → read_body (34 ∷ rest) ≡ some ([], rest)
unfolding read_body
read_body-end [] h = refl
read_body-end (b ∷ t) h = ground arith

read_body-cons : (c : ℕ) (t : Text) → (c == 34) ≡ false → read_body (c ∷ t) ≡ push c (read_body t)
unfolding read_body
read_body-cons c [] h = rw h
read_body-cons c (b ∷ t) h = rw h

read_body-pair : (t : Text) → read_body (34 ∷ 34 ∷ t) ≡ push 34 (read_body t)
unfolding read_body
read_body-pair t = refl

read_body-double_quotes :
    (name rest : Text)
    → head_is 34 rest ≡ false
    → read_body (double_quotes name ++ 34 ∷ rest) ≡ some (name, rest)
unfolding double_quotes
read_body-double_quotes [] rest h = read_body-end rest h
read_body-double_quotes (c ∷ t) rest h = elim (Bool-cases (c == 34)) [
  | inl quote ↦ rw quote (
      read_body-pair (double_quotes t ++ 34 ∷ rest)
      ∙ ap (push 34) (read_body-double_quotes t rest h)
      ∙ ap (λ d. some (d ∷ t, rest)) (sym ((==_iff c 34).0 quote)))
  | inr other ↦ rw other (
      read_body-cons c (double_quotes t ++ 34 ∷ rest) other
      ∙ ap (push c) (read_body-double_quotes t rest h))
]

-- Whatever bytes an identifier holds, a database reads the quoted form back as that identifier
-- and goes on with what follows, if that does not begin with a double quote.
pub read_ident-quote_ident :
    (name rest : Text)
    → head_is 34 rest ≡ false
    → read_ident (quote_ident name ++ rest) ≡ some (name, rest)
unfolding quote_ident read_ident
read_ident-quote_ident name rest h =
    rw (append_assoc (double_quotes name) (34 ∷ []) rest) (read_body-double_quotes name rest h)

mode_after-double_quotes : (t : Text) → mode_after in_ident (double_quotes t) ≡ in_ident
unfolding double_quotes mode_after
mode_after-double_quotes [] = refl
mode_after-double_quotes (c ∷ t) = ground (arith, mode_after-double_quotes t)

marks-double_quotes : (t : Text) → marks in_ident (double_quotes t) ≡ 0
unfolding double_quotes marks
marks-double_quotes [] = refl
marks-double_quotes (c ∷ t) = ground (arith, marks-double_quotes t)

-- The parts of a quoted identifier: the quote, the doubled name and the quote.
pub quote_ident-Holds : (name : Text) → Holds 0 (quote_ident name)
unfolding quote_ident mode_after marks
quote_ident-Holds name = record {
  closed =
      rw (mode_after-append in_ident (double_quotes name) (34 ∷ []), mode_after-double_quotes name)
        refl;
  counted =
      rw
        (
          marks-append in_ident (double_quotes name) (34 ∷ []),
          mode_after-double_quotes name,
          marks-double_quotes name,
        )
        refl;
}

pub Binds-quote_ident : (name : Text) → Binds (lit (quote_ident name))
Binds-quote_ident name = binds _ (quote_ident-Holds name)

dot-Holds : Holds 0 (codes ".")
unfolding mode_after marks
dot-Holds = record { closed = refl; counted = refl }

quote_parts-Holds : (name : Text) (o : Option (Text × Text)) → Holds 0 (quote_parts name o)
unfolding quote_parts
quote_parts-Holds name none = quote_ident-Holds name
quote_parts-Holds name (some (a, b)) =
    Holds-append 0 0 (quote_ident a) (codes "." ++ quote_ident b) (quote_ident-Holds a)
      (Holds-append 0 0 (codes ".") (quote_ident b) dot-Holds (quote_ident-Holds b))

quote_col-Holds : (name : Text) → Holds 0 (quote_col name)
unfolding quote_col
quote_col-Holds name = quote_parts-Holds name (split_dot name)

pub Binds-quote_col : (name : Text) → Binds (lit (quote_col name))
Binds-quote_col name = binds _ (quote_col-Holds name)
