-- ===== src/Dialect/Builder.antt =====
-- The result of printing a statement: its text and its arguments in binding order. The source
-- appends to a `strings.Builder` and to an argument slice; here the fragments are appended. A
-- panic of the source, an index out of range, is `none`.
use drel.Base.{
  ℕ, zero, suc, ◌+◌, ◌/◌, ◌%◌, ◌<◌, ◌≡◌, refl, Bool, true, false, Option, none, some, List, [], ◌∷◌,
  ◌++◌, arith, Text, codes, length, length-append, ltb, if◌then◌else◌, ◌==◌, ◌||◌, All, Bool-cases,
  inl, inr,
}
use drel.Ast.{Value}
use drel.Lex.{code, mode_after, marks, Holds, Holds-append}

pub record Result : Type 0 where
  pub sql : Text
  pub args : List Value

pub record ColumnValue : Type 0 where
  pub column : Text
  pub value : Value

abbrev pub Sql : Type 0
Sql = Option Result

abbrev pub lit : Text → Sql
lit t = some (record { sql = t; args = [] })

abbrev pub nothing : Sql
nothing = lit []

-- One placeholder and its argument.
abbrev pub bind : Value → Sql
bind v = some (record { sql = codes "?"; args = v ∷ [] })

infixr 60 ◌⊕◌
unfoldable pub ◌⊕◌ : Sql → Sql → Sql
none ⊕ s = none
some r ⊕ none = none
some r ⊕ some q = some (record { sql = r.sql ++ q.sql; args = r.args ++ q.args })

abbrev pub when : Bool → Sql → Sql
when b s = if b then s else nothing

abbrev pub optional {ℓ} : {A : Type ℓ} → Option A → (A → Sql) → Sql
optional none f = nothing
optional (some a) f = f a

-- `for i, x := range xs { if i > 0 { write(sep) }; write(x) }`
unfoldable pub join {ℓ} : {A : Type ℓ} → Text → (A → Sql) → List A → Sql
join sep f [] = nothing
join sep f (x ∷ []) = f x
join sep f (x ∷ y ∷ r) = f x ⊕ lit sep ⊕ join sep f (y ∷ r)

-- `for _, x := range xs { write(x) }`
unfoldable pub each {ℓ} : {A : Type ℓ} → (A → Sql) → List A → Sql
each f [] = nothing
each f (x ∷ r) = f x ⊕ each f r

-- `%d` of a number that is not negative.
decimal_digits : ℕ → ℕ → Text
decimal_digits zero n = []
decimal_digits (suc fuel) n =
    let rest = decimal_digits fuel (n / 10) in
    if ltb n 10 then (48 + n) ∷ [] else rest ++ (48 + n % 10) ∷ []

unfoldable pub decimal : ℕ → Text
unfolding decimal_digits
decimal n = decimal_digits (suc n) n

-- The statement was printed, and it has one placeholder for each argument.
pub data Binds : Sql → Type 0 where
  binds : (r : Result) → Holds (length r.args) r.sql → Binds (some r)

pub Binds-append : (s t : Sql) → Binds s → Binds t → Binds (s ⊕ t)
unfolding ◌⊕◌
Binds-append none t h k = elim h [ ]
Binds-append (some r) none h k = elim k [ ]
Binds-append (some r) (some q) (binds _ h) (binds _ k) = binds _ (
    rw (length-append r.args q.args) (Holds-append (length r.args) (length q.args) r.sql q.sql h k))

-- Text with neither quote nor placeholder.
abbrev pub is_plain : Text → Bool
is_plain [] = true
is_plain (c ∷ t) = if c == 39 || c == 34 || c == 63 then false else is_plain t

mode_after-plain : (t : Text) → is_plain t ≡ true → mode_after code t ≡ code
unfolding mode_after
mode_after-plain [] h = refl
mode_after-plain (c ∷ t) h = ground (arith, mode_after-plain t)

marks-plain : (t : Text) → is_plain t ≡ true → marks code t ≡ 0
unfolding marks
marks-plain [] h = refl
marks-plain (c ∷ t) h = ground (arith, marks-plain t)

pub Binds-lit : (t : Text) → is_plain t ≡ true → Binds (lit t)
Binds-lit t h = binds _ (record { closed = mode_after-plain t h; counted = marks-plain t h })

pub Binds-closed : (t : Text) → Holds 0 t → Binds (lit t)
Binds-closed t h = binds _ h

pub Binds-bind : (v : Value) → Binds (bind v)
unfolding mode_after marks
Binds-bind v = binds _ (record { closed = refl; counted = refl })

pub Binds-when : (b : Bool) (s : Sql) → Binds s → Binds (when b s)
Binds-when true s h = h
Binds-when false s h = Binds-lit [] refl

pub Binds-if : (b : Bool) (s t : Sql) → Binds s → Binds t → Binds (if b then s else t)
Binds-if true s t h k = h
Binds-if false s t h k = k

pub Binds-optional {ℓ} :
    {A : Type ℓ} (o : Option A) (f : A → Sql)
    → ((a : A) → o ≡ some a → Binds (f a))
    → Binds (optional o f)
Binds-optional none f h = Binds-lit [] refl
Binds-optional (some a) f h = h a refl

module _ {ℓ} {A : Type ℓ} (f : A → Sql) where
  pub Binds-join-All :
      (sep : Text)
      → is_plain sep ≡ true
      → (xs : List A) → All (λ x. Binds (f x)) xs
      → Binds (join sep f xs)
  unfolding join
  Binds-join-All sep p [] h = Binds-lit [] refl
  Binds-join-All sep p (x ∷ []) h = h.0
  Binds-join-All sep p (x ∷ y ∷ r) h =
      Binds-append _ _ h.0 (Binds-append _ _ (Binds-lit sep p) (Binds-join-All sep p (y ∷ r) h.1))

  pub Binds-join :
      (sep : Text)
      → is_plain sep ≡ true
      → ((x : A) → Binds (f x))
      → (xs : List A) → Binds (join sep f xs)
  unfolding join
  Binds-join sep p h [] = Binds-lit [] refl
  Binds-join sep p h (x ∷ []) = h x
  Binds-join sep p h (x ∷ y ∷ r) =
      Binds-append _ _ (h x) (Binds-append _ _ (Binds-lit sep p) (Binds-join sep p h (y ∷ r)))

  pub Binds-each : ((x : A) → Binds (f x)) → (xs : List A) → Binds (each f xs)
  unfolding each
  Binds-each h [] = Binds-lit [] refl
  Binds-each h (x ∷ r) = Binds-append _ _ (h x) (Binds-each h r)

is_plain-append : (s t : Text) → is_plain s ≡ true → is_plain t ≡ true → is_plain (s ++ t) ≡ true
is_plain-append [] t h k = k
is_plain-append (c ∷ s) t h k = ground (arith, is_plain-append s t)

is_plain-digit : (d : ℕ) → d < 10 → is_plain ((48 + d) ∷ []) ≡ true
is_plain-digit d h = ground arith

is_plain-decimal_digits : (f n : ℕ) → is_plain (decimal_digits f n) ≡ true
unfolding decimal_digits
is_plain-decimal_digits zero n = refl
is_plain-decimal_digits (suc f) n = elim (Bool-cases (ltb n 10)) [
  | inl small ↦ rw small (is_plain-digit n (ground arith))
  | inr big ↦ rw big (
      is_plain-append (decimal_digits f (n / 10)) _ (is_plain-decimal_digits f (n / 10))
        (is_plain-digit (n % 10) (omega arith)))
]

pub is_plain-decimal : (n : ℕ) → is_plain (decimal n) ≡ true
unfolding decimal
is_plain-decimal n = is_plain-decimal_digits (suc n) n

pub Binds-decimal : (n : ℕ) → Binds (lit (decimal n))
Binds-decimal n = Binds-lit (decimal n) (is_plain-decimal n)
