-- ===== src/Relay/Exclusion.antt =====
-- Replicas of a relay over one table of partition leases, as a step relation. Their clocks are
-- synchronised: a step happens at the time of the board, which never runs back.
use drel.Base.{
  All, refl, ltb→lt, same_text_refl, ℕ, ◌+◌, ◌≤◌, ◌≡◌, sym, ap, ◌∙◌, Bool, true, false, not, ◌&&◌,
  Option, none, some, List, [], ◌∷◌, arith, Text, same_text, same_text_iff, keep, Bool-cases, inl,
  inr,
}
use mathlib.Core.Path.{subst}
use drel.Relay.Table.{
  Lease, Leases, lease_partition, release_partition, is_vacant, is_held_by, set_lease,
}

-- A replica that won a lease, and until when.
pub record Holding : Type 0 where
  pub worker : Text
  pub key : Text
  pub until : ℕ

pub record Board : Type 0 where
  pub time : ℕ
  pub leases : Leases
  pub holdings : List Holding

-- A replica that won works on the partition until it gives it back; one that lost does nothing.
unfoldable pub hold : Bool → Holding → List Holding → List Holding
hold true h hs = h ∷ hs
hold false h hs = hs

unfoldable pub is_other : Text → Text → Holding → Bool
is_other worker key h = not (same_text h.worker worker && same_text h.key key)

unfoldable pub leased : Text → ℕ → Text → Board → Board
unfolding hold
leased worker lease key b =
    let (after, won) = lease_partition worker b.time lease key b.leases in
    record b {
      leases = after;
      holdings =
          hold won (record { worker = worker; key = key; until = b.time + lease }) b.holdings;
    }

unfoldable pub released : Text → Text → Board → Board
unfolding is_other
released worker key b = record b {
  leases = release_partition worker key b.leases;
  holdings = keep (is_other worker key) b.holdings;
}

pub data Step : Board → Board → Type 0 where
  passes : (b : Board) (now : ℕ) → b.time ≤ now → Step b (record b { time = now })
  leases_key :
      (b : Board) (worker : Text) (lease : ℕ) (key : Text) → Step b (leased worker lease key b)
  releases_key : (b : Board) (worker key : Text) → Step b (released worker key b)

pub data Reach : Board → Board → Type 0 where
  here : {b : Board} → Reach b b
  then_step : {a b c : Board} → Reach a b → Step b c → Reach a c

pub data Held (h : Holding) : List Holding → Type 0 where
  first : {hs : List Holding} → Held h (h ∷ hs)
  later : {g : Holding} {hs : List Holding} → Held h hs → Held h (g ∷ hs)

-- A holding that has not ended is in the table.
unfoldable pub IsKnown : ℕ → Leases → Holding → Type 0
IsKnown now leases h =
    now ≤ h.until → leases h.key ≡ some (record { claimed_by = h.worker; claimed_until = h.until })

pub IsRecorded : Board → Type 0
IsRecorded b = All (IsKnown b.time b.leases) b.holdings

All-imply :
    (P Q : Holding → Type 0)
    → ((h : Holding) → P h → Q h)
    → (hs : List Holding) → All P hs
    → All Q hs
All-imply P Q f [] k = tt
All-imply P Q f (h ∷ hs) k = (f h k.0, All-imply P Q f hs k.1)

All-keep :
    (P Q : Holding → Type 0) (p : Holding → Bool)
    → ((h : Holding) → p h ≡ true → P h → Q h)
    → (hs : List Holding) → All P hs
    → All Q (keep p hs)
All-keep P Q p f [] k = tt
All-keep P Q p f (h ∷ hs) k = elim (Bool-cases (p h)) [
  | inl e ↦ rw e (f h e k.0, All-keep P Q p f hs k.1)
  | inr e ↦ rw e (All-keep P Q p f hs k.1)
]

at_same_key :
    (leases : Leases) (key : Text) (h : Holding) (o : Option Lease)
    → same_text h.key key ≡ true
    → leases h.key ≡ o
    → leases key ≡ o
at_same_key leases key h o e k = subst (λ t. leases t ≡ o) ((same_text_iff h.key key).0 e) k

-- A lease that has ended, or none, is known to no holding that has not ended.
other_key :
    (now : ℕ) (leases : Leases) (key : Text) (l : Option Lease) (h : Holding)
    → is_vacant now (leases key) ≡ true
    → IsKnown now leases h
    → IsKnown now (set_lease key l leases) h
unfolding IsKnown
other_key now leases key l h v known live = elim (Bool-cases (same_text h.key key)) [
  | inl e ↦
      let ended : is_vacant now (some (record { claimed_by = h.worker; claimed_until = h.until }))
          ≡ true =
        rw (at_same_key leases key h _ e (known live)) at v in
      absurd (let lt = ltb→lt h.until now ended in omega (arith, lt, live))
  | inr e ↦ rw e (known live)
]

new_key :
    (now : ℕ) (leases : Leases) (worker key : Text) (until : ℕ)
    → IsKnown now
        (set_lease key (some (record { claimed_by = worker; claimed_until = until })) leases)
        (record { worker = worker; key = key; until = until })
unfolding IsKnown
new_key now leases worker key until live = rw (same_text_refl key) refl

-- What one replica deletes is known to no holding of another that has not ended.
kept_key :
    (now : ℕ) (leases : Leases) (worker key : Text) (h : Holding)
    → is_held_by worker (leases key) ≡ true
    → is_other worker key h ≡ true
    → IsKnown now leases h
    → IsKnown now (set_lease key none leases) h
unfolding IsKnown is_other
kept_key now leases worker key h held other known live = elim (Bool-cases (same_text h.key key)) [
  | inl e ↦
      let own : is_held_by worker (some (record { claimed_by = h.worker; claimed_until = h.until }))
          ≡ true =
        rw (at_same_key leases key h _ e (known live)) at held in
      absurd (ground (arith, own, e, other))
  | inr e ↦ rw e (known live)
]

module _ (worker : Text) (key : Text) (b : Board) where
  leased-IsRecorded : (lease : ℕ) → IsRecorded b → IsRecorded (leased worker lease key b)
  unfolding IsRecorded leased lease_partition hold
  leased-IsRecorded lease inv = elim (Bool-cases (is_vacant b.time (b.leases key))) [
    | inl v ↦ rw v (
      new_key b.time b.leases worker key (b.time + lease),
      All-imply _ _ (λ h. other_key b.time b.leases key _ h v) b.holdings inv,
    )
    | inr v ↦ rw v inv
  ]

  released-IsRecorded : IsRecorded b → IsRecorded (released worker key b)
  unfolding IsRecorded released release_partition
  released-IsRecorded inv = elim (Bool-cases (is_held_by worker (b.leases key))) [
    | inl own ↦ rw own (
        All-keep _ _ (is_other worker key) (λ h o. kept_key b.time b.leases worker key h own o)
          b.holdings inv)
    | inr other ↦ rw other (All-keep _ _ (is_other worker key) (λ h o k. k) b.holdings inv)
  ]

passes-IsRecorded :
    (b : Board) (now : ℕ) → b.time ≤ now → IsRecorded b → IsRecorded (record b { time = now })
unfolding IsRecorded IsKnown
passes-IsRecorded b now le inv =
    All-imply _ _ (λ h k live. k (omega (arith, le, live))) b.holdings inv

Step-IsRecorded : {b c : Board} → Step b c → IsRecorded b → IsRecorded c
Step-IsRecorded (passes b now le) inv = passes-IsRecorded b now le inv
Step-IsRecorded (leases_key b worker lease key) inv = leased-IsRecorded worker key b lease inv
Step-IsRecorded (releases_key b worker key) inv = released-IsRecorded worker key b inv

pub Reach-IsRecorded : {b c : Board} → Reach b c → IsRecorded b → IsRecorded c
Reach-IsRecorded here inv = inv
Reach-IsRecorded (then_step r s) inv = Step-IsRecorded s (Reach-IsRecorded r inv)

Held-All : (P : Holding → Type 0) (h : Holding) (hs : List Holding) → Held h hs → All P hs → P h
Held-All P h hs Held.first k = k.0
Held-All P h hs (Held.later l) k = Held-All P h _ l k.1

abbrev pub empty_board : Leases → Board
empty_board leases = record { time = 0; leases = leases; holdings = [] }

some-path : {k l : Lease} → some k ≡ some l → k ≡ l
some-path e = cc

-- Whatever the replicas do, from a board on which none holds a partition: two replicas that both hold a
-- partition until now or later are one, since the table has a single holder and an end for it. Leases
-- that have ended, ones that are given back twice, and waits are covered; the clocks are synchronised.
pub mutual_exclusion :
    {leases : Leases} {b : Board}
    → Reach (empty_board leases) b
    → (g h : Holding) → Held g b.holdings
    → Held h b.holdings
    → same_text g.key h.key ≡ true
    → b.time ≤ g.until
    → b.time ≤ h.until
    → (g.worker ≡ h.worker) × (g.until ≡ h.until)
unfolding IsRecorded IsKnown
mutual_exclusion {leases} {b} r g h hg hh e lg lh =
    let inv = Reach-IsRecorded r (let start : IsRecorded (empty_board leases) = tt in start) in
    let kg = Held-All (IsKnown b.time b.leases) g b.holdings hg inv in
    let kh = Held-All (IsKnown b.time b.leases) h b.holdings hh inv in
    let one = some-path (sym (at_same_key b.leases h.key g _ e (kg lg)) ∙ kh lh) in
    (ap (λ l. l.claimed_by) one, ap (λ l. l.claimed_until) one)
