-- ===== src/Relay/Batch.antt =====
-- The relay: claim and RunOnce.
use drel.Base.{
  ℕ, ◌-◌, Bool, true, false, Option, none, some, [], ◌∷◌, List, Text, leb, if◌then◌else◌, ◌==◌,
}
use drel.Relay.Table.{ClaimedMessage}
use drel.Relay.Run.{
  Tick, World, Relay, Batch, add_group, add_key, add_loose, list_partitions, lease_key, release_key,
  claim_key, publish_batch,
}

abbrev pub no_batch : Batch
no_batch = record { groups = []; keys = []; count = 0 }

module _ (database : ℕ → Tick) (publish : ClaimedMessage → Option Text) (relay : Relay) where
  -- A batch comes with the flag that an error ends the claim.
  unfoldable pub given_up : Batch → World × Option Bool → World × (Batch × Bool)
  given_up b (w, none) = (w, (b, true))
  given_up b (w, some answer) = (w, (b, false))

  -- The partition was leased, and its rows were claimed; it may have emptied in between.
  unfoldable pub taken :
      Text → Batch → World × Option (List ClaimedMessage) → World × (Batch × Bool)
  unfolding given_up
  taken key b (w, none) = ((release_key database publish relay key w).0, (b, true))
  taken key b (w, some []) = given_up b (release_key database publish relay key w)
  taken key b (w, some (m ∷ ms)) = (w, (add_group (m ∷ ms) (add_key key b), false))

  -- The answer says whether this replica won.
  unfoldable pub leased : Text → Batch → World × Option Bool → World × (Batch × Bool)
  unfolding taken
  leased key b (w, none) = (w, (b, true))
  leased key b (w, some false) = (w, (b, false))
  leased key b (w, some true) =
      taken key b (claim_key database publish relay key (relay.batch_size - b.count) w)

  unfoldable pub claim_partition : Text → Batch → World → World × (Batch × Bool)
  unfolding leased
  claim_partition key b w = leased key b (lease_key database publish relay key w)

  -- The loop over the candidate keys.
  unfoldable pub claim_keys : List Text → Batch → World → World × (Batch × Bool)
  unfolding claim_partition
  claim_keys [] b w = (w, (b, false))
  claim_keys (key ∷ keys) b w = elim (leb relay.batch_size b.count) [
    | true ↦ (w, (b, false))
    | false ↦
        let (after, (more, error)) = claim_partition key b w in
        elim error [ true ↦ (after, (more, true)) | false ↦ claim_keys keys more after ]
  ]

  unfoldable pub add_claimed : Batch → World × Option (List ClaimedMessage) → World × (Batch × Bool)
  add_claimed b (w, none) = (w, (b, true))
  add_claimed b (w, some loose) = (w, (add_loose loose b, false))

  unfoldable pub claim_loose : World × (Batch × Bool) → World × (Batch × Bool)
  unfolding add_claimed
  claim_loose (w, (b, true)) = (w, (b, true))
  claim_loose (w, (b, false)) = elim (leb relay.batch_size b.count) [
    | true ↦ (w, (b, false))
    | false ↦ add_claimed b (claim_key database publish relay [] (relay.batch_size - b.count) w)
  ]

  unfoldable pub claim_from : World × Option (List Text) → World × (Batch × Bool)
  unfolding claim_keys claim_loose
  claim_from (w, none) = (w, (no_batch, true))
  claim_from (w, some keys) = claim_loose (claim_keys keys no_batch w)

  unfoldable pub claim : World → World × (Batch × Bool)
  unfolding claim_from
  claim w = claim_from (list_partitions database publish relay w)

  -- The deferred release of the batch's partitions; an error is only reported.
  unfoldable pub release_keys : List Text → World → World
  release_keys [] w = w
  release_keys (key ∷ keys) w = release_keys keys (release_key database publish relay key w).0

  unfoldable pub finish : Batch → World × (ℕ × Bool) → World × (ℕ × Bool)
  unfolding release_keys
  finish b (w, result) = (release_keys b.keys w, result)

  -- An error of the claim returns before the release is deferred.
  unfoldable pub run_batch : World × (Batch × Bool) → World × (ℕ × Bool)
  unfolding finish
  run_batch (w, (b, true)) = (w, (0, true))
  run_batch (w, (b, false)) =
      if b.count == 0
      then finish b (w, (0, false))
      else finish b (publish_batch database publish relay b.groups w)

  unfoldable pub run_once : World → World × (ℕ × Bool)
  unfolding claim run_batch
  run_once w = run_batch (claim w)
