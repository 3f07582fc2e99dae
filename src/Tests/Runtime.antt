-- ===== src/Tests/Runtime.antt =====
-- Rewritten placeholders and retried transactions at concrete inputs.
use drel.Base.{
  ℕ, suc, ◌+◌, ◌-◌, ◌/◌, ◌^◌, arith, ◌≤◌, ◌<◌, ◌≡◌, refl, Bool, true, Option, none, some, [], ◌∷◌,
  List, codes, ltb, ◌==◌, if◌then◌else◌,
}
use drel.Placeholder.{
  rewrite_placeholders, Piece, render, render_marks, ArePieces, starts_digit, is_digit,
  rewrite_placeholders_lem,
}
use drel.Retry.{
  ℤ, RetryConfig, normalized, backoff, or_default, config_of, transaction_with_retry, jittered,
  jittered_lem, transaction_with_retry_lem,
}

abbrev swapped : List Piece
swapped =
    Piece.plain (codes "a = ")
    ∷ Piece.param 50 []
    ∷ Piece.plain (codes " AND b = ")
    ∷ Piece.param 49 []
    ∷ Piece.plain (codes " AND c = ")
    ∷ Piece.quoted (codes "$1")
    ∷ []

-- The second argument is meant for `a`, and the rewritten statement binds the first to it.
swapped_text :
    rewrite_placeholders (codes "a = $2 AND b = $1 AND c = '$1'")
    ≡ codes "a = ? AND b = ? AND c = '$1'"
unfolding rewrite_placeholders
swapped_text = refl

rewrite_placeholders_example : rewrite_placeholders (render swapped) ≡ render_marks swapped
unfolding ArePieces is_digit starts_digit render
rewrite_placeholders_example =
    rewrite_placeholders_lem swapped
      (refl, (refl, refl, refl, (refl, (refl, refl, refl, (refl, (refl, tt))))))

-- A database that cannot serialize the first two transactions; the state counts the runs.
abbrev contended : ℕ → ℕ × Option ℕ
contended w = (suc w, if ltb w 2 then some 40001 else none)

abbrev is_40001 : ℕ → Bool
is_40001 e = e == 40001

abbrev patient : ℕ → ℕ → ℕ × Option ℕ
patient w d = (w, none)

third_time : transaction_with_retry contended is_40001 patient none 0 ≡ some (3, none)
unfolding transaction_with_retry config_of or_default
third_time = refl

transaction_with_retry_example :
    (v : ℕ) × (r : Option ℕ) × (transaction_with_retry contended is_40001 patient none 0
      ≡ some (v, r))
    × (0 < v)
    × (v ≤ 0 + (normalized (config_of none)).max_attempts)
    × ((e : ℕ)
        → r ≡ some e
        → is_40001 e ≡ true
        → v ≡ 0 + (normalized (config_of none)).max_attempts)
transaction_with_retry_example =
    transaction_with_retry_lem contended is_40001 patient (λ w. w) (λ w. refl) (λ w d. refl)
      (λ w d x h. absurd (cc h)) none 0

abbrev wide : RetryConfig
wide = record { max_attempts = ℤ.pos 100; base_delay = ℤ.pos 3; max_delay = ℤ.negsuc 0 }

abbrev middle : ℕ → ℕ
middle n = n / 2

middle_below : (n : ℕ) → 0 < n → middle n < n
middle_below n h = omega (arith, h)

jittered_example :
    ((normalized wide).max_delay < 2 ^ 63 - 1
      → (s : ℕ) × (jittered middle (normalized wide) 64 ≡ some s)
        × (s ≤ (normalized wide).max_delay))
    × (backoff (normalized wide) 64 ≡ 2 ^ 63 - 1 → jittered middle (normalized wide) 64 ≡ none)
jittered_example = jittered_lem middle wide 64 middle_below

halfway : jittered middle (normalized wide) 2 ≡ some 3
unfolding jittered normalized or_default
halfway = refl

-- The largest cap, and a shift that overflows.
abbrev huge : RetryConfig
huge = record {
  max_attempts = ℤ.pos 100;
  base_delay = ℤ.pos 3;
  max_delay = ℤ.pos 9223372036854775807;
}

overflows : jittered middle (normalized huge) 64 ≡ none
unfolding jittered normalized or_default
overflows = refl
