-- ===== src/Base/Assoc.antt =====
-- Go's `map` as an association list, over a Boolean test on keys. The program never ranges over a
-- map where the order of entries matters.
use mathlib.Core.Path.{◌≡◌}
use mathlib.Core.Logic.{◌↔◌}
use mathlib.Core.Bool.{Bool, true}
use mathlib.Core.Option.{Option, none, some}
use mathlib.Core.List.{List, [], ◌∷◌}
use native.Mathlib.Omega.{arith}
use drel.Base.Tests.{if◌then◌else◌}

module _ {ℓ κ} {K : Type ℓ} {V : Type κ} (beq : K → K → Bool) where
  unfoldable pub lookup : K → List (K × V) → Option V
  lookup k [] = none
  lookup k ((j, v) ∷ m) = if beq j k then some v else lookup k m

  unfoldable pub erase : K → List (K × V) → List (K × V)
  erase k [] = []
  erase k ((j, v) ∷ m) = let rest = erase k m in if beq j k then rest else (j, v) ∷ rest

  unfoldable pub insert : K → V → List (K × V) → List (K × V)
  unfolding erase
  insert k v m = (k, v) ∷ erase k m

  module _ (beq_iff : (a b : K) → (beq a b ≡ true) ↔ (a ≡ b)) where
    pub lookup-erase :
        (k j : K) (m : List (K × V)) → lookup j (erase k m) ≡ (if beq k j then none else lookup j m)
    unfolding lookup erase
    lookup-erase k j [] = ground arith
    lookup-erase k j ((i, v) ∷ m) =
        ground (arith, lookup-erase k j m, beq_iff i k, beq_iff i j, beq_iff k j)

    pub lookup-insert :
        (k j : K) (v : V) (m : List (K × V))
        → lookup j (insert k v m) ≡ (if beq k j then some v else lookup j m)
    unfolding lookup insert
    lookup-insert k j v m = ground (arith, lookup-erase k j m)
