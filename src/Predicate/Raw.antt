-- ===== src/Predicate/Raw.antt =====
-- `countRawPlaceholders` against the reading of a database without dollar quotes.
use drel.Base.{
  ap, sym, take, List, ◌≡◌, refl, ◌∙◌, Bool, true, false, ◌||◌, [], ◌∷◌, ◌++◌, arith, Text, codes,
  ◌==◌,
}
use drel.Lex.{Mode, code, in_string, in_ident, marks, advance}
use drel.Ast.{Value}
use drel.Dialect.Sqlite.Where.{RawState, raw_loop}
use drel.Dialect.Sqlite.Where.Raw.{sql-raw_loop, args-raw_loop}
use drel.Predicate.{
  ScanState, normal, single_quoted, double_quoted, dollar_quoted, count_loop,
  count_raw_placeholders,
}

abbrev pub has_dollar : Text → Bool
has_dollar [] = false
has_dollar (c ∷ t) = c == 36 || has_dollar t

abbrev mode_of : ScanState → Mode
mode_of normal = code
mode_of single_quoted = in_string
mode_of double_quoted = in_ident
mode_of dollar_quoted = in_string

abbrev is_dollar : ScanState → Bool
is_dollar dollar_quoted = true
is_dollar st = false

count_loop-marks :
    (st : ScanState) (t : Text)
    → is_dollar st ≡ false
    → has_dollar t ≡ false
    → count_loop st false t ≡ marks (mode_of st) t
unfolding count_loop marks
count_loop-marks dollar_quoted t d h = absurd (cc)
count_loop-marks normal [] d h = refl
count_loop-marks normal (c ∷ t) d h = ground (
  arith,
  count_loop-marks single_quoted t refl,
  count_loop-marks double_quoted t refl,
  count_loop-marks normal t refl,
)
count_loop-marks double_quoted [] d h = refl
count_loop-marks double_quoted (c ∷ t) d h =
    ground (arith, count_loop-marks double_quoted t refl, count_loop-marks normal t refl)
count_loop-marks single_quoted [] d h = refl
count_loop-marks single_quoted (c ∷ []) d h = ground arith
count_loop-marks single_quoted (c ∷ e ∷ t) d h = ground (
  arith,
  count_loop-marks single_quoted t refl,
  count_loop-marks single_quoted (e ∷ t) refl,
  count_loop-marks normal (e ∷ t) refl,
)

-- A fragment without a dollar sign is counted as the SQLite printer binds it: the count is that of the
-- question marks outside quoted strings and identifiers, also where a database would read a comment,
-- and the printer binds that many of any arguments, in their order, and changes no byte.
pub count_raw_placeholders-marks :
    (t : Text)
    → has_dollar t ≡ false
    → (count_raw_placeholders t ≡ marks code t)
      × ((args : List Value)
          → ((raw_loop RawState.normal false t args).args ≡ take (count_raw_placeholders t) args)
            × ((raw_loop RawState.normal false t args).sql ≡ t))
unfolding count_raw_placeholders
count_raw_placeholders-marks t h =
    let counted = count_loop-marks normal t refl h in
    (
      counted,
      λ args. (
        args-raw_loop RawState.normal t args ∙ ap (λ n. take n args) (sym counted),
        sql-raw_loop RawState.normal false t args,
      ),
    )

count_loop-dollar :
    (t : Text) → has_dollar t ≡ false → count_loop dollar_quoted false (t ++ codes "$$") ≡ 0
unfolding count_loop
count_loop-dollar [] h = refl
count_loop-dollar (c ∷ t) h = ground (arith, count_loop-dollar t)

count_loop-dollars :
    (t : Text) → count_loop normal false (codes "$$" ++ t) ≡ count_loop dollar_quoted false t
unfolding count_loop
count_loop-dollars t = refl

marks-dollars : (t : Text) → marks code (codes "$$" ++ t) ≡ marks code t
unfolding marks
marks-dollars t = refl

marks-end : (m : Mode) (t : Text) → marks m (t ++ codes "$$") ≡ marks m t
unfolding marks
marks-end code [] = refl
marks-end in_string [] = refl
marks-end in_ident [] = refl
marks-end m (c ∷ t) = ground (arith, marks-end (advance m c) t)

-- The count takes dollar quotes for quotes, and the SQLite reading does not: over a dollar-quoted
-- body the count is 0, so `raw` accepts it with no argument, and SQLite still reads every
-- placeholder of the body.
pub count_raw_placeholders_dollar :
    (t : Text)
    → has_dollar t ≡ false
    → (count_raw_placeholders (codes "$$" ++ (t ++ codes "$$")) ≡ 0)
      × (marks code (codes "$$" ++ (t ++ codes "$$")) ≡ marks code t)
unfolding count_raw_placeholders
count_raw_placeholders_dollar t h = (
  count_loop-dollars (t ++ codes "$$") ∙ count_loop-dollar t h,
  marks-dollars (t ++ codes "$$") ∙ marks-end code t,
)
