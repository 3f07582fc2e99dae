-- ===== src/Dialect/Sqlite/Where/Raw.antt =====
-- The loop of `writeWhere` over a raw fragment: it changes no byte, and it binds as many arguments
-- as the database reads placeholders.
use drel.Base.{
  ℕ, zero, suc, ◌≡◌, refl, ap, some, head_is, if◌then◌else◌, Bool, true, false, [], ◌∷◌, ◌++◌, List,
  arith, Text, take, length, take-length,
}
use drel.Ast.{Value}
use drel.Lex.{Mode, code, in_string, in_ident, marks, Holds}
use drel.Dialect.Builder.{Binds, binds}
use drel.Dialect.Sqlite.Where.{
  RawState, normal, single_quoted, double_quoted, raw_loop, raw_state, raw_skips, raw_is_mark,
  first_arg, later_args,
}

abbrev mode_of : RawState → Mode
mode_of normal = code
mode_of single_quoted = in_string
mode_of double_quoted = in_ident

pub sql-raw_loop :
    (st : RawState) (skip : Bool) (t : Text) (args : List Value) → (raw_loop st skip t args).sql ≡ t
unfolding raw_loop
sql-raw_loop st true [] args = refl
sql-raw_loop st false [] args = refl
sql-raw_loop st true (c ∷ rest) args = ap (λ s. c ∷ s) (sql-raw_loop st false rest args)
sql-raw_loop st false (c ∷ rest) args =
    let doubled = head_is 39 rest in
    ap (λ s. c ∷ s)
      (sql-raw_loop (raw_state st c doubled) (raw_skips st c doubled) rest
        (if raw_is_mark st c then later_args args else args))

take-suc :
    (n : ℕ) (args : List Value) → take (suc n) args ≡ first_arg args ++ take n (later_args args)
take-suc zero [] = refl
take-suc (suc n) [] = refl
take-suc n (v ∷ args) = refl

pub args-raw_loop :
    (st : RawState) (t : Text) (args : List Value)
    → (raw_loop st false t args).args ≡ take (marks (mode_of st) t) args
unfolding raw_loop marks
args-raw_loop normal [] args = refl
args-raw_loop normal (c ∷ t) args = ground (
  arith,
  args-raw_loop single_quoted t args,
  args-raw_loop double_quoted t args,
  args-raw_loop normal t args,
  args-raw_loop normal t (later_args args),
  take-suc (marks code t) args,
)
args-raw_loop double_quoted [] args = refl
args-raw_loop double_quoted (c ∷ t) args =
    ground (arith, args-raw_loop double_quoted t args, args-raw_loop normal t args)
args-raw_loop single_quoted [] args = refl
args-raw_loop single_quoted (c ∷ []) args = ground arith
args-raw_loop single_quoted (c ∷ d ∷ t) args = ground (
  arith,
  args-raw_loop single_quoted t args,
  args-raw_loop single_quoted (d ∷ t) args,
  args-raw_loop normal (d ∷ t) args,
)

-- A fragment that closes its quotes binds exactly its arguments.
pub Binds-raw_loop :
    (t : Text) (args : List Value)
    → Holds (length args) t
    → Binds (some (raw_loop normal false t args))
Binds-raw_loop t args h = binds _ (
    rw (sql-raw_loop normal false t args, args-raw_loop normal t args, h.counted, take-length args)
      h)
