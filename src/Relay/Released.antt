-- ===== src/Relay/Released.antt =====
-- A run gives back every partition that it took.
use drel.Base.{
  ◌≢◌, ℕ, suc, ◌+◌, ◌-◌, ◌≡◌, refl, sym, ap, Bool, true, false, ◌||◌, ◌⊎◌, Option, none, some, [],
  ◌∷◌, ◌++◌, List, arith, Text, leb, ◌==◌, Bool-cases, inl, inr, same_text, same_text_iff,
  same_text_refl,
}
use mathlib.Core.Path.{subst}
use drel.Relay.Table.{
  ClaimedMessage, Leases, set_lease, is_held_by, is_one_of, is_vacant, candidate_partitions,
  lease_partition, release_partition,
}
use drel.Relay.Run.{
  answered, Tick, World, Relay, Batch, add_group, add_key, add_loose, publish_batch, release_key,
  claim_key,
}
use drel.Relay.Batch.{
  given_up, taken, leased, claim_partition, add_claimed, no_batch, claim_from, finish, run_batch,
}
use drel.Relay.Answered.{
  leases-publish_batch, lease_key-won, lease_key-lost, release_key-answered, claim_key-answered,
  listed, won,
}
use drel.Relay.Batch.{claim_keys, claim_loose, claim, release_keys, run_once}

-- A lease is gone, or is what it was before.
abbrev pub IsClean : Leases → Leases → Text → Type 0
IsClean before leases k = (leases k ≡ none) ⊎ (leases k ≡ before k)

-- The worker holds no other partitions than those it will give back.
abbrev Owed : Text → Leases → List Text → Leases → Type 0
Owed worker before keys leases =
    (k : Text)
    → IsClean before leases k ⊎ ((is_one_of k keys ≡ true) × (is_held_by worker (leases k) ≡ true))

same_key : (leases : Leases) (k key : Text) → same_text k key ≡ true → leases k ≡ leases key
same_key leases k key e = ap leases ((same_text_iff k key).0 e)

is_one_of-append :
    (k key : Text) (keys : List Text)
    → is_one_of k (keys ++ key ∷ []) ≡ (is_one_of k keys || same_text key k)
is_one_of-append k key [] = ground arith
is_one_of-append k key (j ∷ keys) = ground (arith, is_one_of-append k key keys)

same_text_sym : (s t : Text) → same_text s t ≡ same_text t s
same_text_sym [] [] = refl
same_text_sym [] (b ∷ t) = refl
same_text_sym (a ∷ s) [] = refl
same_text_sym (a ∷ s) (b ∷ t) = ground (arith, same_text_sym s t)

module _ (worker : Text) (before : Leases) where
  -- A partition that was won is owed.
  won_key :
      (key : Text) (until : ℕ) (keys : List Text) (leases : Leases)
      → Owed worker before keys leases
      → Owed worker before
          (key ∷ keys)
          (set_lease key (some (record { claimed_by = worker; claimed_until = until })) leases)
  won_key key until keys leases owed k = elim (Bool-cases (same_text k key)) [
    | inl e ↦ rw e (inr (ground (arith, same_text_sym key k, e), same_text_refl worker))
    | inr e ↦ rw e (elim (owed k) [ inl c ↦ inl c | inr m ↦ inr (ground (arith, m), m.1) ])
  ]

  moved :
      (key : Text) (keys : List Text) (leases : Leases)
      → Owed worker before (key ∷ keys) leases
      → Owed worker before (keys ++ key ∷ []) leases
  moved key keys leases owed k = elim (owed k) [
    | inl c ↦ inl c
    | inr m ↦ inr (ground (arith, is_one_of-append k key keys, m), m.1)
  ]

  not_first :
      (key : Text) (keys : List Text) (leases : Leases) (k : Text)
      → same_text k key ≡ false
      → IsClean before leases k
        ⊎ ((is_one_of k (key ∷ keys) ≡ true) × (is_held_by worker (leases k) ≡ true))
      → IsClean before leases k
        ⊎ ((is_one_of k keys ≡ true) × (is_held_by worker (leases k) ≡ true))
  not_first key keys leases k e (inl c) = inl c
  not_first key keys leases k e (inr m) = inr (ground (arith, m, e, same_text_sym key k), m.1)

  -- One that is given back is not owed, and no other changes.
  returned_key :
      (key : Text) (keys : List Text) (leases : Leases)
      → Owed worker before (key ∷ keys) leases
      → Owed worker before keys (release_partition worker key leases)
  unfolding release_partition
  returned_key key keys leases owed k = elim (Bool-cases (same_text k key)) [
    | inl e ↦ elim (Bool-cases (is_held_by worker (leases key))) [
      | inl own ↦ rw (own, e) (inl (inl refl))
      | inr other ↦ rw other (elim (owed k) [
        | inl c ↦ inl c
        | inr m ↦ absurd (let held = rw (same_key leases k key e) at m.1 in cc (held, other))
      ])
    ]
    | inr e ↦
        let rest = not_first key keys leases k e (owed k) in
        elim (Bool-cases (is_held_by worker (leases key))) [
          | inl own ↦ rw (own, e) rest
          | inr other ↦ rw other rest
        ]
  ]

module _ (database : ℕ → Tick) (publish : ClaimedMessage → Option Text) (relay : Relay)
    (healthy : (n : ℕ) → (database n).outcome ≡ answered) where
  module _ (before : Leases) where
    abbrev IsOwed : World × (Batch × Bool) → Type 0
    IsOwed r = Owed relay.worker_id before r.1.0.keys r.0.leases × (r.1.1 ≡ false)

    taken-Owed :
        (key : Text) (b : Batch) (w : World) (ms : Option (List ClaimedMessage))
        → ms ≢ none
        → Owed relay.worker_id before (key ∷ b.keys) w.leases
        → IsOwed (taken database publish relay key b (w, ms))
    unfolding taken add_group add_key given_up
    taken-Owed key b w none h owed = absurd (h refl)
    taken-Owed key b w (some []) h owed =
        rw (release_key-answered database publish relay healthy key w)
          (returned_key relay.worker_id before key b.keys w.leases owed, refl)
    taken-Owed key b w (some (m ∷ ms)) h owed =
        (moved relay.worker_id before key b.keys w.leases owed, refl)

    rows_claimed :
        (key : Text) (b : Batch) (w : World)
        → Owed relay.worker_id before (key ∷ b.keys) w.leases
        → IsOwed (leased database publish relay key b (w, some true))
    unfolding leased
    rows_claimed key b w owed =
        let rows =
          claim_key-answered database publish relay healthy key (relay.batch_size - b.count) w in
        let claim_of = claim_key database publish relay key (relay.batch_size - b.count) w in
        taken-Owed key b claim_of.0 claim_of.1 rows.1
          (subst (λ leases. Owed relay.worker_id before (key ∷ b.keys) leases) (sym rows.0) owed)

    claim_partition-Owed :
        (key : Text) (b : Batch) (w : World)
        → Owed relay.worker_id before b.keys w.leases
        → IsOwed (claim_partition database publish relay key b w)
    unfolding claim_partition leased lease_partition
    claim_partition-Owed key b w owed =
        elim (Bool-cases (is_vacant (database w.statements).now (w.leases key))) [
          | inl v ↦
              subst (λ p. IsOwed (leased database publish relay key b p))
                (sym (lease_key-won database publish relay healthy key w v))
                (rows_claimed key b (won database publish relay healthy key w) (
                  won_key relay.worker_id before key ((database w.statements).now + relay.lease)
                    b.keys w.leases owed))
          | inr v ↦
              subst (λ p. IsOwed (leased database publish relay key b p))
                (sym (lease_key-lost database publish relay healthy key w v)) (owed, refl)
        ]

    claim_keys-Owed :
        (keys : List Text) (b : Batch) (w : World)
        → Owed relay.worker_id before b.keys w.leases
        → IsOwed (claim_keys database publish relay keys b w)
    unfolding claim_keys
    claim_keys-Owed [] b w owed = (owed, refl)
    claim_keys-Owed (key ∷ keys) b w owed = elim (Bool-cases (leb relay.batch_size b.count)) [
      | inl full ↦ rw (claim_keys, full) (owed, refl)
      | inr room ↦
          let one = claim_partition-Owed key b w owed in
          rw (claim_keys, room, one.1)
            (claim_keys-Owed keys (claim_partition database publish relay key b w).1.0
              (claim_partition database publish relay key b w).0 one.0)
    ]

    Owed-nothing :
        (leases : Leases)
        → Owed relay.worker_id before [] leases
        → (k : Text) → IsClean before leases k
    Owed-nothing leases owed k = elim (owed k) [ inl c ↦ c | inr m ↦ absurd (ground (arith, m)) ]

    release_keys-IsClean :
        (keys : List Text) (w : World)
        → Owed relay.worker_id before keys w.leases
        → (k : Text) → IsClean before (release_keys database publish relay keys w).leases k
    unfolding release_keys
    release_keys-IsClean [] w owed = Owed-nothing w.leases owed
    release_keys-IsClean (key ∷ keys) w owed =
        release_keys-IsClean keys (release_key database publish relay key w).0 (
          subst (λ p. Owed relay.worker_id before keys p.0.leases)
            (sym (release_key-answered database publish relay healthy key w))
            (returned_key relay.worker_id before key keys w.leases owed))

    keys-add_loose : (ms : List ClaimedMessage) (b : Batch) → (add_loose ms b).keys ≡ b.keys
    unfolding add_loose add_group
    keys-add_loose [] b = refl
    keys-add_loose (m ∷ ms) b = keys-add_loose ms (add_group (m ∷ []) b)

    add_claimed-Owed :
        (b : Batch) (w : World) (ms : Option (List ClaimedMessage))
        → ms ≢ none
        → Owed relay.worker_id before b.keys w.leases
        → IsOwed (add_claimed database publish relay b (w, ms))
    unfolding add_claimed
    add_claimed-Owed b w none h owed = absurd (h refl)
    add_claimed-Owed b w (some ms) h owed = (
      subst (λ keys. Owed relay.worker_id before keys w.leases) (sym (keys-add_loose ms b)) owed,
      refl,
    )

    claim_loose-Owed :
        (b : Batch) (w : World)
        → Owed relay.worker_id before b.keys w.leases
        → IsOwed (claim_loose database publish relay (w, (b, false)))
    unfolding claim_loose
    claim_loose-Owed b w owed = elim (Bool-cases (leb relay.batch_size b.count)) [
      | inl full ↦ rw (claim_loose, full) (owed, refl)
      | inr room ↦
          let rows =
            claim_key-answered database publish relay healthy [] (relay.batch_size - b.count) w in
          let claim_of = claim_key database publish relay [] (relay.batch_size - b.count) w in
          rw (claim_loose, room)
            (add_claimed-Owed b claim_of.0 claim_of.1 rows.1
              (subst (λ leases. Owed relay.worker_id before b.keys leases) (sym rows.0) owed))
    ]

    loose_or_error :
        (r : World × (Batch × Bool)) → IsOwed r → IsOwed (claim_loose database publish relay r)
    loose_or_error (w, (b, true)) h = absurd (ground (arith, h.1))
    loose_or_error (w, (b, false)) h = claim_loose-Owed b w h.0

    finish-IsClean :
        (b : Batch) (r : World × (ℕ × Bool))
        → Owed relay.worker_id before b.keys r.0.leases
        → (k : Text) → IsClean before (finish database publish relay b r).0.leases k
    unfolding finish
    finish-IsClean b (w, result) owed = release_keys-IsClean b.keys w owed

    run_batch-IsClean :
        (r : World × (Batch × Bool))
        → IsOwed r
        → (k : Text) → IsClean before (run_batch database publish relay r).0.leases k
    unfolding run_batch
    run_batch-IsClean (w, (b, true)) h = absurd (ground (arith, h.1))
    run_batch-IsClean (w, (b, false)) h = elim (Bool-cases (b.count == 0)) [
      | inl e ↦ rw e (finish-IsClean b (w, (0, false)) h.0)
      | inr e ↦ rw e (
          finish-IsClean b (publish_batch database publish relay b.groups w) (
            subst (λ leases. Owed relay.worker_id before b.keys leases)
              (sym (leases-publish_batch database publish relay healthy b.groups w)) h.0))
    ]

  -- Where every statement is answered, a run leaves each partition without a lease or with the one it
  -- had before the run: whatever the run leased it has given back, published or not.
  pub run_once_lem :
      (w : World) (k : Text) → IsClean w.leases (run_once database publish relay w).0.leases k
  unfolding run_once claim claim_from
  run_once_lem w = run_batch-IsClean w.leases (claim database publish relay w) (
      subst (λ p. IsOwed w.leases (claim_from database publish relay p))
        (sym (listed database publish relay healthy w))
        (loose_or_error w.leases _ (
          claim_keys-Owed w.leases
            (candidate_partitions (database w.statements).now relay.batch_size w.rows) no_batch
            (record w { statements = suc w.statements }) (λ k. inl (inr refl)))))
