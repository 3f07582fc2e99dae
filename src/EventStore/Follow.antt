-- ===== src/EventStore/Follow.antt =====
-- A reader of the whole log sees every event, once and in order.
use drel.Base.{
  ℕ, zero, suc, ◌≤◌, ◌≡◌, refl, sym, ◌∙◌, ap, Bool, true, false, [], ◌∷◌, ◌++◌, arith, All, length,
  keep, take, drop, Bool-cases, inl, inr,
}
use drel.Retry.{ℤ, pos, negsuc}
use drel.Relay.Run.{at_least_one}
use drel.EventStore.{
  Position, before, Record, Log, place, in_order, read_all, last_position, continued, follow,
}

abbrev pub is_after : Position → Record → Bool
is_after p r = before p r.position

-- Each row stands behind the rows before it.
unfoldable pub IsOrdered : Log → Type 0
IsOrdered [] = Unit {0}
IsOrdered (r ∷ rs) = All (λ s. is_after r.position s ≡ true) rs × IsOrdered rs

pub before_self : (p : Position) → before p p ≡ false
unfolding before
before_self p = ground arith

pub before_asym : (p q : Position) → before p q ≡ true → before q p ≡ false
unfolding before
before_asym p q h = ground (arith, h)

before_trans : (p q r : Position) → before p q ≡ true → before q r ≡ true → before p r ≡ true
unfolding before
before_trans p q r h k = ground (arith, h, k)

pub keep-All :
    (p : Position) (rs : Log) → All (λ r. is_after p r ≡ true) rs → keep (is_after p) rs ≡ rs
keep-All p [] h = refl
keep-All p (r ∷ rs) h = rw (h.0) (ap (λ q. r ∷ q) (keep-All p rs h.1))

All-keep : (p : Position) (rs : Log) → All (λ r. is_after p r ≡ true) (keep (is_after p) rs)
All-keep p [] = tt
All-keep p (r ∷ rs) = elim (Bool-cases (is_after p r)) [
  | inl e ↦ rw e (e, All-keep p rs)
  | inr e ↦ rw e (All-keep p rs)
]

All-kept : (P : Record → Type 0) (p : Position) (rs : Log) → All P rs → All P (keep (is_after p) rs)
All-kept P p [] h = tt
All-kept P p (r ∷ rs) h = elim (Bool-cases (is_after p r)) [
  | inl e ↦ rw e (h.0, All-kept P p rs h.1)
  | inr e ↦ rw e (All-kept P p rs h.1)
]

pub IsOrdered-keep : (p : Position) (rs : Log) → IsOrdered rs → IsOrdered (keep (is_after p) rs)
unfolding IsOrdered
IsOrdered-keep p [] h = tt
IsOrdered-keep p (r ∷ rs) h = elim (Bool-cases (is_after p r)) [
  | inl e ↦ rw e (All-kept (λ s. is_after r.position s ≡ true) p rs h.0, IsOrdered-keep p rs h.1)
  | inr e ↦ rw e (IsOrdered-keep p rs h.1)
]

-- A later position keeps what an earlier one kept.
keep-keep :
    (from p : Position) (rs : Log)
    → before from p ≡ true
    → keep (is_after p) (keep (is_after from) rs) ≡ keep (is_after p) rs
keep-keep from p [] h = refl
keep-keep from p (r ∷ rs) h = elim (Bool-cases (is_after from r)) [
  | inl e ↦ rw e (elim (Bool-cases (is_after p r)) [
    | inl f ↦ rw f (ap (λ q. r ∷ q) (keep-keep from p rs h))
    | inr f ↦ rw f (keep-keep from p rs h)
  ])
  | inr e ↦ elim (Bool-cases (is_after p r)) [
    | inl f ↦ absurd (let t = before_trans from p r.position h f in cc (t, e))
    | inr f ↦ rw (e, f) (keep-keep from p rs h)
  ]
]

last_is_after :
    (q : Position) (n : ℕ) (x : Record) (ys : Log)
    → All (λ r. is_after q r ≡ true) (x ∷ ys)
    → before q (last_position x (take n ys)) ≡ true
unfolding last_position
last_is_after q zero x ys h = h.0
last_is_after q (suc n) x [] h = h.0
last_is_after q (suc n) x (y ∷ ys) h = last_is_after q n y ys h.1

-- The rows behind the last one of those that were read are the rest.
keep_rest :
    (n : ℕ) (x : Record) (ys : Log)
    → IsOrdered (x ∷ ys)
    → keep (is_after (last_position x (take n ys))) (x ∷ ys) ≡ drop n ys
unfolding IsOrdered last_position
keep_rest zero x ys h = rw (before_self x.position) (keep-All x.position ys h.0)
keep_rest (suc n) x [] h = rw (before_self x.position) refl
keep_rest (suc n) x (y ∷ ys) h =
    rw (before_asym x.position (last_position y (take n ys)) (last_is_after x.position n y ys h.0))
      (keep_rest n y ys h.1)

pub take-drop : (n : ℕ) (xs : Log) → take n xs ++ drop n xs ≡ xs
take-drop zero xs = refl
take-drop (suc n) [] = refl
take-drop (suc n) (x ∷ xs) = ap (λ r. x ∷ r) (take-drop n xs)

length-drop : (n : ℕ) (xs : Log) → length (drop n xs) ≤ length xs
length-drop zero xs = omega arith
length-drop (suc n) [] = omega arith
length-drop (suc n) (x ∷ xs) = let h = length-drop n xs in omega (arith, h)

pub at_least_one-suc : (limit : ℤ) → (n : ℕ) × (at_least_one limit ≡ suc n)
unfolding at_least_one
at_least_one-suc (pos zero) = (0, refl)
at_least_one-suc (pos (suc n)) = (n, refl)
at_least_one-suc (negsuc n) = (0, refl)

-- One call and the calls after it, over the rows that are left.
one_call :
    (fuel n : ℕ) (limit : ℤ) (from : Position) (log xs : Log)
    → keep (is_after from) log ≡ xs
    → IsOrdered xs
    → All (λ r. is_after from r ≡ true) xs
    → length xs ≤ suc fuel
    → ((p : Position)
        → length (keep (is_after p) log) ≤ fuel
        → follow fuel limit p log ≡ keep (is_after p) log)
    → continued (λ p. follow fuel limit p log) (take (suc n) xs) ≡ xs
unfolding continued
one_call fuel n limit from log [] e o a le rest = refl
one_call fuel n limit from log (x ∷ ys) e o a le rest =
    let p = last_position x (take n ys) in
    let left : keep (is_after p) log ≡ drop n ys =
      sym (keep-keep from p log (last_is_after from n x ys a))
      ∙ ap (keep (is_after p)) e
      ∙ keep_rest n x ys o in
    let shorter : length (keep (is_after p) log) ≤ fuel =
      rw left (let d = length-drop n ys in omega (arith, d, le)) in
    ap (λ q. x ∷ q) (ap (λ q. take n ys ++ q) (rest p shorter ∙ left) ∙ take-drop n ys)

empty_of : (xs : Log) → length xs ≤ 0 → [] ≡ xs
empty_of [] le = refl
empty_of (x ∷ xs) le = absurd (omega (arith, le))

place_first :
    (r : Record) (log : Log) → All (λ s. is_after r.position s ≡ true) log → place r log ≡ r ∷ log
unfolding place
place_first r [] h = refl
place_first r (s ∷ log) h = rw (before_asym r.position s.position h.0) refl

pub in_order_ordered : (log : Log) → IsOrdered log → in_order log ≡ log
unfolding in_order IsOrdered
in_order_ordered [] o = refl
in_order_ordered (r ∷ log) o = rw (in_order_ordered log o.1) (place_first r log o.0)

-- With any limit, also one below 1, a reader that asks again from the position of the last record gets
-- every event behind its start, once and in the order of the log, in at most as many calls as there are
-- such events; the log has its rows in the order of their positions.
pub follow_lem :
    (fuel : ℕ) (limit : ℤ) (from : Position) (log : Log)
    → IsOrdered log
    → length (keep (is_after from) log) ≤ fuel
    → follow fuel limit from log ≡ keep (is_after from) log
unfolding follow read_all
follow_lem zero limit from log o le = empty_of (keep (is_after from) log) le
follow_lem (suc fuel) limit from log o le =
    let (n, e) = at_least_one-suc limit in
    rw (in_order_ordered (keep (is_after from) log) (IsOrdered-keep from log o), e)
      (one_call fuel n limit from log (keep (is_after from) log) refl (IsOrdered-keep from log o)
        (All-keep from log) le (λ p. follow_lem fuel limit p log o))
