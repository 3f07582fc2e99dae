-- ===== src/Retry.antt =====
-- retry.go: a transaction that is run again after a serialization failure.
use drel.Base.{
  ℕ, zero, suc, ◌+◌, ◌-◌, ◌*◌, ◌^◌, ◌%◌, ◌≤◌, ◌<◌, ◌≡◌, refl, Bool, true, false, ◌||◌, Option, none,
  some, arith, ◌==◌, ltb, leb, if◌then◌else◌, Bool-cases, Option-cases, leb→le, inl, inr,
}

-- Go's `int` and `time.Duration`.
pub data ℤ : Type 0 where
  pos negsuc : ℕ → ℤ

-- A field that is not positive falls back to its default.
unfoldable pub or_default : ℤ → ℕ → ℕ
or_default (pos zero) d = d
or_default (pos (suc n)) d = suc n
or_default (negsuc n) d = d

pub record RetryConfig : Type 0 where
  pub max_attempts : ℤ
  pub base_delay : ℤ
  pub max_delay : ℤ

-- A configuration with every field positive; delays are in nanoseconds.
pub record Normalized : Type 0 where
  pub max_attempts : ℕ
  pub base_delay : ℕ
  pub max_delay : ℕ

unfoldable pub normalized : RetryConfig → Normalized
normalized c = record {
  max_attempts = or_default c.max_attempts 3;
  base_delay = or_default c.base_delay 50000000;
  max_delay = or_default c.max_delay 1000000000;
}

-- The delay before jitter. A shift wraps around at 64 bits, and half of those numbers are negative.
unfoldable pub backoff : Normalized → ℕ → ℕ
backoff rc attempt =
    let delay = rc.base_delay * 2 ^ (attempt - 1) % 2 ^ 64 in
    if delay == 0 || (leb (2 ^ 63) delay || ltb rc.max_delay delay) then rc.max_delay else delay

or_default-positive : (n : ℤ) (d : ℕ) → 0 < d → 0 < or_default n d
unfolding or_default
or_default-positive (pos zero) d h = h
or_default-positive (pos (suc n)) d h = omega arith
or_default-positive (negsuc n) d h = h

capped :
    (d m : ℕ)
    → 0 < m
    → let delay = if d == 0 || (leb (2 ^ 63) d || ltb m d) then m else d in
      (0 < delay) × (delay ≤ m)
capped d m h = (ground arith, ground arith)

backoff-bounds :
    (c : RetryConfig) (attempt : ℕ)
    → (0 < backoff (normalized c) attempt)
      × (backoff (normalized c) attempt ≤ (normalized c).max_delay)
unfolding backoff normalized
backoff-bounds c attempt =
    capped (or_default c.base_delay 50000000 * 2 ^ (attempt - 1) % 2 ^ 64)
      (or_default c.max_delay 1000000000) (or_default-positive c.max_delay 1000000000 (omega arith))

-- The delay that is slept, with full jitter. `random` is `rand.Int63n`, which panics, `none`, for a
-- bound that is not positive; the sum wraps around at 64 bits.
unfoldable pub jittered : (ℕ → ℕ) → Normalized → ℕ → Option ℕ
unfolding backoff
jittered random rc attempt =
    let bound = (backoff rc attempt + 1) % 2 ^ 64 in
    if bound == 0 || leb (2 ^ 63) bound then none else some (random bound)

small_bound : (d : ℕ) → d < 2 ^ 63 - 1 → (d + 1) % 2 ^ 64 ≡ d + 1
small_bound d h = omega (arith, h)

slept_in_range :
    (random : ℕ → ℕ) (d m : ℕ)
    → ((n : ℕ) → 0 < n → random n < n)
    → d ≤ m
    → m < 2 ^ 63 - 1
    → (s : ℕ) × ((if (d + 1) % 2 ^ 64 == 0 || leb (2 ^ 63) ((d + 1) % 2 ^ 64)
          then none
          else some (random ((d + 1) % 2 ^ 64)))
        ≡ some s)
      × (s ≤ m)
slept_in_range random d m below le h = rw (small_bound d (omega (arith, le, h))) (
  random (d + 1),
  ground (arith, le, h),
  (let r = below (d + 1) (omega arith) in omega (arith, r, le)),
)

at_most_int : (d : ℕ) → d ≡ 2 ^ 63 - 1 → (d + 1 == 0 || leb (2 ^ 63) ((d + 1) % 2 ^ 64)) ≡ true
at_most_int d h = ground (arith, h)

-- Where a random number is below its positive bound: with a maximal delay below the largest signed
-- 64-bit number, whatever the configuration and the attempt, also where the shift overflows, the sleep does
-- not panic, and its delay, which may be 0, is not above the maximal one. When the delay before the
-- jitter is the largest signed 64-bit number, it panics.
pub jittered_lem :
    (random : ℕ → ℕ) (c : RetryConfig) (attempt : ℕ)
    → ((n : ℕ) → 0 < n → random n < n)
    → ((normalized c).max_delay < 2 ^ 63 - 1
        → (s : ℕ) × (jittered random (normalized c) attempt ≡ some s)
          × (s ≤ (normalized c).max_delay))
      × (backoff (normalized c) attempt ≡ 2 ^ 63 - 1
          → jittered random (normalized c) attempt ≡ none)
unfolding jittered
jittered_lem random c attempt below = (
  (λ h.
      slept_in_range random (backoff (normalized c) attempt) (normalized c).max_delay below
        (backoff-bounds c attempt).1 h),
  (λ h. ground (arith, h)),
)

-- `RetryConfig{}` without `WithRetry`.
unfoldable pub config_of : Option RetryConfig → RetryConfig
config_of (some c) = c
config_of none = record { max_attempts = pos 0; base_delay = pos 0; max_delay = pos 0 }

module _ {W E : Type 0} where
  -- `transaction` runs the function in a transaction, with `none` for a nil error. `wait` sleeps for
  -- the jittered delay; its error is that of a cancelled context.
  unfoldable pub retry_loop :
      (W → W × Option E)
      → (E → Bool)
      → (W → ℕ → W × Option E)
      → Normalized
      → ℕ
      → ℕ
      → W
      → Option (W × Option E)
  unfolding backoff
  retry_loop transaction is_serialization wait rc zero attempt w = none
  retry_loop transaction is_serialization wait rc (suc fuel) attempt w =
      let (ran, err) = transaction w in
      elim err [
        | none ↦ some (ran, none)
        | some e ↦
            if is_serialization e
            then (if leb rc.max_attempts attempt
                then some (ran, some e)
                else (let (waited, cancelled) = wait ran (backoff rc attempt) in
                    elim cancelled [
                      | some x ↦ some (waited, some x)
                      | none ↦
                          retry_loop transaction is_serialization wait rc fuel (suc attempt) waited
                    ]))
            else some (ran, some e)
      ]

  -- `attempt` counts from 1, and the number of attempts is fuel enough.
  unfoldable pub transaction_with_retry :
      (W → W × Option E)
      → (E → Bool)
      → (W → ℕ → W × Option E)
      → Option RetryConfig
      → W
      → Option (W × Option E)
  unfolding retry_loop normalized
  transaction_with_retry transaction is_serialization wait cfg w =
      let rc = normalized (config_of cfg) in
      retry_loop transaction is_serialization wait rc rc.max_attempts 1 w

module _ {W E : Type 0} (transaction : W → W × Option E) (is_serialization : E → Bool)
    (wait : W → ℕ → W × Option E) (runs : W → ℕ)
    (counted : (w : W) → runs (transaction w).0 ≡ suc (runs w))
    (idle : (w : W) (d : ℕ) → runs (wait w d).0 ≡ runs w)
    (cancels : (w : W) (d : ℕ) (x : E) → (wait w d).1 ≡ some x → is_serialization x ≡ false) where
  -- The loop ends after at least one run and at most `n`, and with a serialization failure only
  -- after all of them.
  abbrev Ends : W → ℕ → Option (W × Option E) → Type 0
  Ends w n out =
      (v : W) × (r : Option E) × (out ≡ some (v, r))
      × (runs w < runs v)
      × (runs v ≤ runs w + n)
      × ((e : E) → r ≡ some e → is_serialization e ≡ true → runs v ≡ runs w + n)

  one_attempt :
      (rc : Normalized) (fuel attempt : ℕ) (w : W)
      → attempt + fuel ≡ rc.max_attempts
      → ((v : W)
          → 0 < fuel
          → Ends v fuel (retry_loop transaction is_serialization wait rc fuel (suc attempt) v))
      → Ends w (suc fuel) (retry_loop transaction is_serialization wait rc (suc fuel) attempt w)
  unfolding retry_loop
  one_attempt rc fuel attempt w h rest = elim (Option-cases (transaction w).1) [
    | inl fine ↦
        rw (fine, retry_loop)
          (_, _, refl, omega (arith, counted w), omega (arith, counted w), λ e p s. absurd (cc p))
    | inr (e, failed) ↦
        rw (failed, retry_loop)
          (elim (Bool-cases (is_serialization e)) [
            | inr other ↦ rw other (
              _,
              _,
              refl,
              omega (arith, counted w),
              omega (arith, counted w),
              λ x p s. absurd (cc p),
            )
            | inl serial ↦ rw serial (elim (Bool-cases (leb rc.max_attempts attempt)) [
              | inl last ↦ rw last (
                _,
                _,
                refl,
                omega (arith, counted w),
                omega (arith, counted w),
                λ x p s. omega (arith, counted w, h, leb→le rc.max_attempts attempt last),
              )
              | inr more ↦
                  let v : W = (transaction w).0 in
                  let u : W = (wait v (backoff rc attempt)).0 in
                  let same : runs u ≡ runs v = idle v (backoff rc attempt) in
                  rw more (elim (Option-cases (wait v (backoff rc attempt)).1) [
                    | inr (x, cancelled) ↦
                        let other = cancels v (backoff rc attempt) x cancelled in
                        rw cancelled (
                          _,
                          _,
                          refl,
                          omega (arith, counted w, same),
                          omega (arith, counted w, same),
                          λ y p s. absurd (cc p),
                        )
                    | inl waited ↦
                        let (z, r, e, low, high, all) = rest u (ground arith) in
                        rw waited (
                          z,
                          r,
                          e,
                          omega (arith, counted w, same, low),
                          omega (arith, counted w, same, high),
                          λ y p s. omega (arith, counted w, same, all y p s),
                        )
                  ])
            ])
          ])
  ]

  retry_loop_lem :
      (rc : Normalized) (fuel attempt : ℕ) (w : W)
      → attempt + fuel ≡ rc.max_attempts
      → Ends w (suc fuel) (retry_loop transaction is_serialization wait rc (suc fuel) attempt w)
  retry_loop_lem rc zero attempt w h =
      one_attempt rc zero attempt w h (λ v low. absurd (omega (arith, low)))
  retry_loop_lem rc (suc fuel) attempt w h =
      one_attempt rc (suc fuel) attempt w h
        (λ v low. retry_loop_lem rc fuel (suc attempt) v (omega (arith, h)))

  at_all_attempts :
      (n : ℕ) (rc : Normalized) (w : W)
      → rc.max_attempts ≡ n
      → 0 < n
      → Ends w n (retry_loop transaction is_serialization wait rc n 1 w)
  at_all_attempts zero rc w h low = absurd (omega (arith, low))
  at_all_attempts (suc n) rc w h low = retry_loop_lem rc n 1 w (omega (arith, h))

  -- For a count that each run of the transaction raises by one and a wait leaves alone, and waits
  -- whose error is no serialization failure: the loop ends, after at least one run and at most the
  -- configured number of attempts, and it reports a serialization failure only after all of them.
  pub transaction_with_retry_lem :
      (cfg : Option RetryConfig) (w : W)
      → let most = (normalized (config_of cfg)).max_attempts in
        (v : W) × (r : Option E) × (transaction_with_retry transaction is_serialization wait cfg w
          ≡ some (v, r))
        × (runs w < runs v)
        × (runs v ≤ runs w + most)
        × ((e : E) → r ≡ some e → is_serialization e ≡ true → runs v ≡ runs w + most)
  unfolding transaction_with_retry normalized
  transaction_with_retry_lem cfg w =
      at_all_attempts _ (normalized (config_of cfg)) w refl
        (or_default-positive (config_of cfg).max_attempts 3 (omega arith))
