-- ===== src/Base/Ids.antt =====
-- Lists of distinct numbers: membership as a test, appending and removing.
use Prim.Native.Nat.{ℕ}
use mathlib.Core.Path.{◌≡◌, refl}
use mathlib.Core.Bool.{Bool, true, false, ◌&&◌, ◌||◌, not}
use mathlib.Core.List.{List, [], ◌∷◌, ◌++◌}
use native.Mathlib.Omega.{arith}
use drel.Base.Tests.{if◌then◌else◌, ◌==◌, ==_refl, Bool-cases}
use mathlib.Core.Logic.{inl, inr}
use drel.Base.Lists.{keep}

abbrev pub contains : ℕ → List ℕ → Bool
contains i [] = false
contains i (j ∷ js) = j == i || contains i js

-- No number stands twice.
abbrev pub Distinct : List ℕ → Type 0
Distinct [] = Unit {0}
Distinct (j ∷ js) = (contains j js ≡ false) × Distinct js

-- The first occurrence goes.
abbrev pub remove : ℕ → List ℕ → List ℕ
remove i [] = []
remove i (j ∷ js) = if j == i then js else j ∷ remove i js

pub contains-append :
    (i j : ℕ) (js : List ℕ) → contains i (js ++ j ∷ []) ≡ (contains i js || j == i)
contains-append i j [] = ground arith
contains-append i j (k ∷ js) = ground (arith, contains-append i j js)

pub Distinct-append :
    (j : ℕ) (js : List ℕ) → Distinct js → contains j js ≡ false → Distinct (js ++ j ∷ [])
Distinct-append j [] h e = (refl, tt)
Distinct-append j (k ∷ js) h e =
    (ground (arith, contains-append k j js), Distinct-append j js h.1 (ground arith))

pub contains-remove :
    (i j : ℕ) (js : List ℕ)
    → Distinct js
    → contains i (remove j js) ≡ (contains i js && not (j == i))
contains-remove i j [] h = ground arith
contains-remove i j (k ∷ js) h = ground (arith, contains-remove i j js h.1)

pub Distinct-remove : (j : ℕ) (js : List ℕ) → Distinct js → Distinct (remove j js)
Distinct-remove j [] h = tt
Distinct-remove j (k ∷ js) h = elim (Bool-cases (k == j)) [
  | inl e ↦ rw e h.1
  | inr e ↦ rw e (ground (arith, contains-remove k j js h.1), Distinct-remove j js h.1)
]

pub contains-keep :
    (p : ℕ → Bool) (i : ℕ) (js : List ℕ) → contains i (keep p js) ≡ (contains i js && p i)
contains-keep p i [] = refl
contains-keep p i (j ∷ js) = elim (Bool-cases (j == i)) [
  | inl e ↦ ground (arith, contains-keep p i js)
  | inr e ↦ ground (arith, contains-keep p i js)
]

pub Distinct-keep : (p : ℕ → Bool) (js : List ℕ) → Distinct js → Distinct (keep p js)
Distinct-keep p [] h = tt
Distinct-keep p (j ∷ js) h = elim (Bool-cases (p j)) [
  | inl e ↦ rw e (ground (arith, contains-keep p j js), Distinct-keep p js h.1)
  | inr e ↦ rw e (Distinct-keep p js h.1)
]

pub keep_same :
    (p q : ℕ → Bool) (is : List ℕ)
    → ((j : ℕ) → contains j is ≡ true → p j ≡ q j)
    → keep p is ≡ keep q is
keep_same p q [] h = refl
keep_same p q (i ∷ is) h =
    rw (h i (ground (arith, ==_refl i)), keep_same p q is (λ j c. h j (ground arith)))

pub keep_none :
    (p : ℕ → Bool) (is : List ℕ) → ((j : ℕ) → contains j is ≡ true → p j ≡ false) → keep p is ≡ []
keep_none p [] h = refl
keep_none p (i ∷ is) h =
    rw (h i (ground (arith, ==_refl i))) (keep_none p is (λ j c. h j (ground arith)))
