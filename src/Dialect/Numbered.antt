-- ===== src/Dialect/Numbered.antt =====
-- The text of a Postgres statement: SQL and placeholders `$n`, printed from a next free number, with
-- the arguments in binding order. The source appends to a builder and a slice, and passes `paramIdx`
-- on; here a printer takes the number and gives the next one back. A panic is `none`.
use drel.Base.{
  ℕ, zero, suc, ◌+◌, ◌≡◌, refl, sym, ap, ◌∙◌, Bool, true, false, Option, none, some, List, [], ◌∷◌,
  ◌++◌, arith, Text, length, length-append, if◌then◌else◌, append-nil,
}
use drel.Ast.{Value}
use drel.Dialect.Builder.{decimal}

pub data Piece : Type 0 where
  sql : Text → Piece
  param : ℕ → Piece

pub record Printed : Type 0 where
  pub pieces : List Piece
  pub args : List Value
  pub next : ℕ

abbrev pub Numbered : Type 0
Numbered = ℕ → Option Printed

abbrev pub lit : Text → Numbered
lit t i = some (record { pieces = sql t ∷ []; args = []; next = i })

abbrev pub nothing : Numbered
nothing i = some (record { pieces = []; args = []; next = i })

-- `$n` and its argument; the next placeholder has the next number.
abbrev pub bind : Value → Numbered
bind v i = some (record { pieces = param i ∷ []; args = v ∷ []; next = suc i })

abbrev pub fail : Numbered
fail i = none

unfoldable pub after_printed : Printed → Option Printed → Option Printed
after_printed r none = none
after_printed r (some q) =
    some (record { pieces = r.pieces ++ q.pieces; args = r.args ++ q.args; next = q.next })

unfoldable pub then_print : Option Printed → Numbered → Option Printed
unfolding after_printed
then_print none q = none
then_print (some r) q = after_printed r (q r.next)

infixr 60 ◌⊕◌
unfoldable pub ◌⊕◌ : Numbered → Numbered → Numbered
unfolding then_print
(p ⊕ q) i = then_print (p i) q

abbrev pub when : Bool → Numbered → Numbered
when b p = if b then p else nothing

abbrev pub optional {ℓ} : {A : Type ℓ} → Option A → (A → Numbered) → Numbered
optional none f = nothing
optional (some a) f = f a

unfoldable pub join {ℓ} : {A : Type ℓ} → Text → (A → Numbered) → List A → Numbered
join sep f [] = nothing
join sep f (x ∷ []) = f x
join sep f (x ∷ y ∷ r) = f x ⊕ lit sep ⊕ join sep f (y ∷ r)

unfoldable pub each {ℓ} : {A : Type ℓ} → (A → Numbered) → List A → Numbered
each f [] = nothing
each f (x ∷ r) = f x ⊕ each f r

-- A finished statement numbers from 1.
unfoldable pub finish : Numbered → Option Printed
finish p = p 1

-- The text that is sent.
unfoldable pub text_of : List Piece → Text
text_of [] = []
text_of (sql t ∷ ps) = t ++ text_of ps
text_of (param n ∷ ps) = 36 ∷ decimal n ++ text_of ps

-- The numbers of the placeholders, in order of appearance.
unfoldable pub numbers : List Piece → List ℕ
numbers [] = []
numbers (sql t ∷ ps) = numbers ps
numbers (param n ∷ ps) = n ∷ numbers ps

-- `n` numbers from `i`.
unfoldable pub count_up : ℕ → ℕ → List ℕ
count_up i zero = []
count_up i (suc n) = i ∷ count_up (suc i) n

-- The statement was printed; its placeholders are numbered without a gap from the given number, one
-- for each argument in the order of the arguments.
pub data IsNumbered (i : ℕ) : Option Printed → Type 0 where
  is_numbered :
      (r : Printed)
      → numbers r.pieces ≡ count_up i (length r.args)
      → r.next ≡ i + length r.args
      → IsNumbered i (some r)

pub numbers-append : (ps qs : List Piece) → numbers (ps ++ qs) ≡ numbers ps ++ numbers qs
unfolding numbers
numbers-append [] qs = refl
numbers-append (sql t ∷ ps) qs = numbers-append ps qs
numbers-append (param n ∷ ps) qs = ap (λ r. n ∷ r) (numbers-append ps qs)

pub count_up-add : (i m n : ℕ) → count_up i (m + n) ≡ count_up i m ++ count_up (i + m) n
unfolding count_up
count_up-add i zero n =
    ap (λ (k : ℕ). count_up i k) (let e : 0 + n ≡ n = omega arith in e)
    ∙ ap (λ (k : ℕ). count_up k n) (let e : i ≡ i + 0 = omega arith in e)
count_up-add i (suc m) n =
    ap (λ (k : ℕ). count_up i k) (let e : suc m + n ≡ suc (m + n) = omega arith in e)
    ∙ ap (λ r. i ∷ r)
        (count_up-add (suc i) m n
          ∙ ap (λ (k : ℕ). count_up (suc i) m ++ count_up k n)
              (let e : suc i + m ≡ i + suc m = omega arith in e))

abbrev pub Numbers : Numbered → Type 0
Numbers p = (i : ℕ) → IsNumbered i (p i)

continued :
    (i : ℕ) (r : Printed) (o : Option Printed)
    → IsNumbered i (some r)
    → IsNumbered r.next o
    → IsNumbered i (after_printed r o)
unfolding after_printed
continued i r none h k = elim k [ ]
continued i r (some q) (is_numbered _ hn hx) (is_numbered _ kn kx) =
    is_numbered _
      (numbers-append r.pieces q.pieces
        ∙ rw (hn, kn, hx, length-append r.args q.args)
            (sym (count_up-add i (length r.args) (length q.args))))
      (rw (length-append r.args q.args) (omega (arith, hx, kx)))

both :
    (i : ℕ) (r : Option Printed) (q : Numbered)
    → IsNumbered i r
    → Numbers q
    → IsNumbered i (then_print r q)
unfolding then_print
both i none q h k = elim h [ ]
both i (some r) q h k = continued i r (q r.next) h (k r.next)

pub Numbers-append : (p q : Numbered) → Numbers p → Numbers q → Numbers (p ⊕ q)
unfolding ◌⊕◌
Numbers-append p q h k i = both i (p i) q (h i) k

pub Numbers-lit : (t : Text) → Numbers (lit t)
unfolding numbers count_up
Numbers-lit t i = is_numbered _ refl (omega arith)

pub Numbers-nothing : Numbers nothing
unfolding numbers count_up
Numbers-nothing i = is_numbered _ refl (omega arith)

pub Numbers-bind : (v : Value) → Numbers (bind v)
unfolding numbers count_up
Numbers-bind v i = is_numbered _ refl (omega arith)

pub Numbers-when : (b : Bool) (p : Numbered) → Numbers p → Numbers (when b p)
Numbers-when true p h = h
Numbers-when false p h = Numbers-nothing

pub Numbers-if : (b : Bool) (p q : Numbered) → Numbers p → Numbers q → Numbers (if b then p else q)
Numbers-if true p q h k = h
Numbers-if false p q h k = k

pub Numbers-optional {ℓ} :
    {A : Type ℓ} (o : Option A) (f : A → Numbered)
    → ((a : A) → o ≡ some a → Numbers (f a))
    → Numbers (optional o f)
Numbers-optional none f h = Numbers-nothing
Numbers-optional (some a) f h = h a refl

module _ {ℓ} {A : Type ℓ} (f : A → Numbered) (h : (x : A) → Numbers (f x)) where
  pub Numbers-join : (sep : Text) (xs : List A) → Numbers (join sep f xs)
  unfolding join
  Numbers-join sep [] = Numbers-nothing
  Numbers-join sep (x ∷ []) = h x
  Numbers-join sep (x ∷ y ∷ r) =
      Numbers-append _ _ (h x) (Numbers-append _ _ (Numbers-lit sep) (Numbers-join sep (y ∷ r)))

  pub Numbers-each : (xs : List A) → Numbers (each f xs)
  unfolding each
  Numbers-each [] = Numbers-nothing
  Numbers-each (x ∷ r) = Numbers-append _ _ (h x) (Numbers-each r)

-- The same with the arguments written out.
pub data PrintsFrom (i : ℕ) (vs : List Value) : Option Printed → Type 0 where
  prints_from :
      (r : Printed)
      → numbers r.pieces ≡ count_up i (length vs)
      → r.args ≡ vs
      → r.next ≡ i + length vs
      → PrintsFrom i vs (some r)

abbrev pub Prints : List Value → Numbered → Type 0
Prints vs p = (i : ℕ) → PrintsFrom i vs (p i)

PrintsFrom-IsNumbered :
    (i : ℕ) (vs : List Value) (o : Option Printed) → PrintsFrom i vs o → IsNumbered i o
PrintsFrom-IsNumbered i vs none h = elim h [ ]
PrintsFrom-IsNumbered i vs (some r) (prints_from _ n a x) = is_numbered r (rw a n) (rw a x)

pub Prints-Numbers : (vs : List Value) (p : Numbered) → Prints vs p → Numbers p
Prints-Numbers vs p h i = PrintsFrom-IsNumbered i vs (p i) (h i)

prints_on :
    (i : ℕ) (vs ws : List Value) (r : Printed) (o : Option Printed)
    → PrintsFrom i vs (some r)
    → PrintsFrom r.next ws o
    → PrintsFrom i (vs ++ ws) (after_printed r o)
unfolding after_printed
prints_on i vs ws r none h k = elim k [ ]
prints_on i vs ws r (some q) (prints_from _ hn ha hx) (prints_from _ kn ka kx) =
    prints_from _
      (numbers-append r.pieces q.pieces
        ∙ rw (hn, kn, hx, length-append vs ws) (sym (count_up-add i (length vs) (length ws))))
      (rw (ha, ka) refl) (rw (length-append vs ws) (omega (arith, hx, kx)))

prints_both :
    (i : ℕ) (vs ws : List Value) (r : Option Printed) (q : Numbered)
    → PrintsFrom i vs r
    → Prints ws q
    → PrintsFrom i (vs ++ ws) (then_print r q)
unfolding then_print
prints_both i vs ws none q h k = elim h [ ]
prints_both i vs ws (some r) q h k = prints_on i vs ws r (q r.next) h (k r.next)

pub Prints-append :
    (vs ws : List Value) (p q : Numbered) → Prints vs p → Prints ws q → Prints (vs ++ ws) (p ⊕ q)
unfolding ◌⊕◌
Prints-append vs ws p q h k i = prints_both i vs ws (p i) q (h i) k

pub Prints-lit : (t : Text) → Prints [] (lit t)
unfolding numbers count_up
Prints-lit t i = prints_from _ refl refl (omega arith)

pub Prints-nothing : Prints [] nothing
unfolding numbers count_up
Prints-nothing i = prints_from _ refl refl (omega arith)

pub Prints-bind : (v : Value) → Prints (v ∷ []) (bind v)
unfolding numbers count_up
Prints-bind v i = prints_from _ refl refl (omega arith)

-- Text before and after binds nothing.
pub Prints-after : (vs : List Value) (t : Text) (p : Numbered) → Prints vs p → Prints vs (lit t ⊕ p)
Prints-after vs t p h = Prints-append [] vs (lit t) p (Prints-lit t) h

pub Prints-after3 :
    (vs : List Value) (a b c : Text) (p : Numbered)
    → Prints vs p
    → Prints vs (lit a ⊕ lit b ⊕ lit c ⊕ p)
Prints-after3 vs a b c p h = Prints-after vs a _ (Prints-after vs b _ (Prints-after vs c p h))

pub Prints-before :
    (vs : List Value) (t : Text) (p : Numbered) → Prints vs p → Prints vs (p ⊕ lit t)
Prints-before vs t p h = rw (← append-nil vs) (Prints-append vs [] p (lit t) h (Prints-lit t))

pub Prints-values : (sep : Text) (vs : List Value) → Prints vs (join sep bind vs)
unfolding join
Prints-values sep [] = Prints-nothing
Prints-values sep (v ∷ []) = Prints-bind v
Prints-values sep (v ∷ w ∷ vs) =
    Prints-append (v ∷ []) (w ∷ vs) (bind v) _ (Prints-bind v)
      (Prints-after (w ∷ vs) sep _ (Prints-values sep (w ∷ vs)))

-- Text, columns, keywords: no argument.
abbrev pub Silent : Numbered → Type 0
Silent p = Prints [] p

pub Prints-skip : (vs : List Value) (q p : Numbered) → Silent q → Prints vs p → Prints vs (q ⊕ p)
Prints-skip vs q p h k = Prints-append [] vs q p h k

pub Prints-close : (vs : List Value) (p q : Numbered) → Prints vs p → Silent q → Prints vs (p ⊕ q)
Prints-close vs p q h k = rw (← append-nil vs) (Prints-append vs [] p q h k)

pub Silent-if : (b : Bool) (p q : Numbered) → Silent p → Silent q → Silent (if b then p else q)
Silent-if true p q h k = h
Silent-if false p q h k = k

pub Silent-when : (b : Bool) (p : Numbered) → Silent p → Silent (when b p)
Silent-when b p h = Silent-if b p nothing h Prints-nothing

module _ {ℓ} {A : Type ℓ} (f : A → Numbered) (h : (x : A) → Silent (f x)) where
  pub Silent-optional : (o : Option A) → Silent (optional o f)
  Silent-optional none = Prints-nothing
  Silent-optional (some a) = h a

  pub Silent-join : (sep : Text) (xs : List A) → Silent (join sep f xs)
  unfolding join
  Silent-join sep [] = Prints-nothing
  Silent-join sep (x ∷ []) = h x
  Silent-join sep (x ∷ y ∷ r) =
      Prints-skip [] _ _ (h x) (Prints-after [] sep _ (Silent-join sep (y ∷ r)))

  pub Silent-each : (xs : List A) → Silent (each f xs)
  unfolding each
  Silent-each [] = Prints-nothing
  Silent-each (x ∷ r) = Prints-skip [] _ _ (h x) (Silent-each r)

-- A list of items, each with its own arguments.
unfoldable pub all_of {ℓ} : {A : Type ℓ} → (A → List Value) → List A → List Value
all_of g [] = []
all_of g (x ∷ xs) = g x ++ all_of g xs

pub Prints-items {ℓ} :
    {A : Type ℓ} (sep : Text) (f : A → Numbered) (g : A → List Value)
    → ((x : A) → Prints (g x) (f x))
    → (xs : List A) → Prints (all_of g xs) (join sep f xs)
unfolding join all_of
Prints-items sep f g h [] = Prints-nothing
Prints-items sep f g h (x ∷ []) = rw (append-nil (g x)) (h x)
Prints-items sep f g h (x ∷ y ∷ r) =
    Prints-append (g x) _ (f x) _ (h x) (Prints-after _ sep _ (Prints-items sep f g h (y ∷ r)))
