-- ===== src/Tracker/Keys.antt =====
-- `identityKey` and `isZeroPK`: the key of a tracked row.
use drel.Base.{
  ℕ, ◌≡◌, ◌↔◌, Bool, true, false, ◌&&◌, List, [], ◌∷◌, arith, Text, ◌==◌, same_text, same_text_iff,
}

-- A primary key: an integer from 0 up, or -(n + 1), of any of the signed types; a string; or
-- another comparable value, such as a UUID, by its bytes.
pub data Pk : Type 0 where
  whole : ℕ → Pk
  negative : ℕ → Pk
  string : Text → Pk
  other : List ℕ → Pk

pub record Key : Type 0 where
  pub table : Text
  pub pk : Pk

all_zero : List ℕ → Bool
all_zero [] = true
all_zero (b ∷ bs) = b == 0 && all_zero bs

unfoldable pub is_zero_pk : Pk → Bool
unfolding all_zero
is_zero_pk (whole n) = n == 0
is_zero_pk (negative n) = false
is_zero_pk (string t) = same_text t []
is_zero_pk (other bs) = all_zero bs

-- Go's `==` on keys.
unfoldable pub same_pk : Pk → Pk → Bool
same_pk (whole m) (whole n) = m == n
same_pk (negative m) (negative n) = m == n
same_pk (string s) (string t) = same_text s t
same_pk (other s) (other t) = same_text s t
same_pk _ _ = false

unfoldable pub same_key : Key → Key → Bool
unfolding same_pk
same_key a b = same_text a.table b.table && same_pk a.pk b.pk

same_pk_iff : (a b : Pk) → (same_pk a b ≡ true) ↔ (a ≡ b)
unfolding same_pk
same_pk_iff (whole m) (whole n) = ((λ h. ground arith), (λ h. ground arith))
same_pk_iff (negative m) (negative n) = ((λ h. ground arith), (λ h. ground arith))
same_pk_iff (string s) (string t) =
    ((λ h. ground (arith, same_text_iff s t)), (λ h. ground (arith, same_text_iff s t)))
same_pk_iff (other s) (other t) =
    ((λ h. ground (arith, same_text_iff s t)), (λ h. ground (arith, same_text_iff s t)))
same_pk_iff _ _ = ((λ h. cc), (λ h. cc))

pub same_key_iff : (a b : Key) → (same_key a b ≡ true) ↔ (a ≡ b)
unfolding same_key
same_key_iff a b = (
  (λ h. ground (arith, same_text_iff a.table b.table, same_pk_iff a.pk b.pk)),
  (λ h. ground (arith, same_text_iff a.table b.table, same_pk_iff a.pk b.pk)),
)
