-- ===== src/Relay/Answered.antt =====
-- What the statements of a run do where each of them is answered.
use drel.Base.{
  ◌≢◌, ℕ, zero, suc, ◌+◌, ◌≡◌, refl, ◌∙◌, true, false, Option, none, some, [], ◌∷◌, ◌++◌, List,
  Text, Bool-cases, Option-cases, inl, inr,
}
use drel.Relay.Table.{
  OutboxRow, ClaimedMessage, set_lease, acked, failed, given_back, is_vacant, candidate_partitions,
  lease_partition, release_partition, claim_rows,
}
use drel.Relay.Run.{
  answered, Tick, World, Relay, is_last_attempt, update, ack, fail, bury, publish_one, release,
  publish_group, publish_batch, list_partitions, lease_key, release_key, claim_key, by_message_id,
}
use drel.Relay.Publish.{exec-answered, update-answered}

module _ (database : ℕ → Tick) (publish : ClaimedMessage → Option Text) (relay : Relay)
    (healthy : (n : ℕ) → (database n).outcome ≡ answered) where
  lease_key-answered :
      (key : Text) (w : World)
      → lease_key database publish relay key w ≡ (
          let (after, won) =
            lease_partition relay.worker_id (database w.statements).now relay.lease key w.leases in
          (record w { statements = suc w.statements; leases = after }, some won))
  unfolding lease_key
  lease_key-answered key w =
      exec-answered database publish relay healthy
        (λ now w'.
          let (after, won) = lease_partition relay.worker_id now relay.lease key w'.leases in
          (record w' { leases = after }, won))
        w

  -- Publishing touches no partition.
  leases-update :
      (i : ℕ) (change : ℕ → OutboxRow → OutboxRow) (w : World)
      → (update database publish relay i change w).0.leases ≡ w.leases
  leases-update i change w = rw (update-answered database publish relay healthy i change w) refl

  leases-fail :
      (m : ClaimedMessage) (cause : Text) (w : World)
      → (fail database publish relay m cause w).0.leases ≡ w.leases
  unfolding fail bury
  leases-fail m cause w = elim (Bool-cases (is_last_attempt relay.max_attempts m.attempts)) [
    | inl e ↦
        rw
          (
            fail,
            e,
            update-answered database publish relay healthy m.id (λ now. failed cause (some now)) w,
          )
          refl
    | inr e ↦
        rw
          (
            fail,
            e,
            update-answered database publish relay healthy m.id (λ now. failed cause none) w,
          )
          refl
  ]

  abbrev handed : ClaimedMessage → World → World
  handed m w = record w { sent = w.sent ++ m ∷ [] }

  leases-publish_one :
      (m : ClaimedMessage) (w : World)
      → (publish_one database publish relay m w).0.leases ≡ w.leases
  unfolding publish_one ack
  leases-publish_one m w = elim (Option-cases (publish m)) [
    | inl e ↦ rw (publish_one, e) (leases-update m.id acked (handed m w))
    | inr (cause, e) ↦ rw (publish_one, e) (leases-fail m cause (handed m w))
  ]

  leases-release :
      (ms : List ClaimedMessage) (w : World)
      → (release database publish relay ms w).leases ≡ w.leases
  unfolding release
  leases-release [] w = refl
  leases-release (m ∷ ms) w =
      leases-release ms (update database publish relay m.id (λ now. given_back) w).0
      ∙ leases-update m.id (λ now. given_back) w

  leases-publish_group :
      (ms : List ClaimedMessage) (w : World)
      → (publish_group database publish relay ms w).0.leases ≡ w.leases
  unfolding publish_group
  leases-publish_group [] w = refl
  leases-publish_group (m ∷ ms) w = elim (Bool-cases (publish_one database publish relay m w).1) [
    | inl e ↦
        rw (publish_group, e)
          (leases-release ms (publish_one database publish relay m w).0 ∙ leases-publish_one m w)
    | inr e ↦
        rw (publish_group, e)
          (leases-publish_group ms (publish_one database publish relay m w).0
            ∙ leases-publish_one m w)
  ]

  pub leases-publish_batch :
      (gs : List (List ClaimedMessage)) (w : World)
      → (publish_batch database publish relay gs w).0.leases ≡ w.leases
  unfolding publish_batch
  leases-publish_batch [] w = refl
  leases-publish_batch (g ∷ gs) w =
      leases-publish_batch gs (publish_group database publish relay g w).0
      ∙ leases-publish_group g w

  abbrev pub won : Text → World → World
  won key w = record w {
    statements = suc w.statements;
    leases =
        set_lease key
          (some (record {
            claimed_by = relay.worker_id;
            claimed_until = (database w.statements).now + relay.lease;
          }))
          w.leases;
  }

  pub lease_key-won :
      (key : Text) (w : World)
      → is_vacant (database w.statements).now (w.leases key) ≡ true
      → lease_key database publish relay key w ≡ (won key w, some true)
  unfolding lease_partition
  lease_key-won key w v = lease_key-answered key w ∙ rw (lease_partition, v) refl

  pub lease_key-lost :
      (key : Text) (w : World)
      → is_vacant (database w.statements).now (w.leases key) ≡ false
      → lease_key database publish relay key w
        ≡ (record w { statements = suc w.statements }, some false)
  unfolding lease_partition
  lease_key-lost key w v = lease_key-answered key w ∙ rw (lease_partition, v) refl

  pub release_key-answered :
      (key : Text) (w : World)
      → release_key database publish relay key w ≡ (
        record w {
          statements = suc w.statements;
          leases = release_partition relay.worker_id key w.leases;
        },
        some true,
      )
  unfolding release_key
  release_key-answered key w =
      exec-answered database publish relay healthy
        (λ now w'. (record w' { leases = release_partition relay.worker_id key w'.leases }, true)) w

  pub claim_key-answered :
      (key : Text) (limit : ℕ) (w : World)
      → ((claim_key database publish relay key limit w).0.leases ≡ w.leases)
        × ((claim_key database publish relay key limit w).1 ≢ none)
  unfolding claim_key
  claim_key-answered key zero w = (refl, λ e. cc e)
  claim_key-answered key (suc limit) w =
      rw
        (exec-answered database publish relay healthy
          (λ now w'.
            let (rows, ms) =
              claim_rows relay.worker_id (now + relay.lease) now key (suc limit) w'.rows in
            (record w' { rows = rows }, by_message_id ms))
          w)
        (refl, λ e. cc e)

  pub listed :
      (w : World)
      → list_partitions database publish relay w ≡ (
        record w { statements = suc w.statements },
        some (candidate_partitions (database w.statements).now relay.batch_size w.rows),
      )
  unfolding list_partitions
  listed w =
      exec-answered database publish relay healthy
        (λ now w'. (w', candidate_partitions now relay.batch_size w'.rows)) w
