-- ===== src/Relay/Run.antt =====
-- The relay: claim, publishBatch, publishOne, RunOnce, over a database whose statements may fail.
use drel.Base.{
  ℕ, zero, suc, ◌+◌, Bool, true, false, ◌||◌, not, Option, none, some, [], ◌∷◌, ◌++◌, List, Text,
  leb, ltb, length, is_some, if◌then◌else◌,
}
use drel.Retry.{ℤ, pos, negsuc}
use drel.Relay.Table.{
  OutboxRow, ClaimedMessage, Leases, candidate_partitions, lease_partition, release_partition,
  claim_rows, update_row, acked, failed, given_back,
}

-- What becomes of a statement: it runs and answers, it runs and the answer is lost, or it does not run.
pub data Outcome : Type 0 where
  answered lost refused : Outcome

-- The statement is sent at a time.
pub record Tick : Type 0 where
  pub now : ℕ
  pub outcome : Outcome

pub record World : Type 0 where
  pub rows : List OutboxRow
  pub leases : Leases
  pub statements : ℕ
  -- The messages that were handed to the transport, in this order.
  pub sent : List ClaimedMessage
  -- The messages for which the callback of dead messages ran.
  pub buried : List ClaimedMessage

-- `NewRelay` raises the batch size to 1. The concurrency has no part in what a sequence of groups does.
pub record RelayConfig : Type 0 where
  pub batch_size : ℤ
  pub lease : ℕ
  pub max_attempts : ℤ
  pub worker_id : Text

pub record Relay : Type 0 where
  pub batch_size : ℕ
  pub lease : ℕ
  pub max_attempts : ℤ
  pub worker_id : Text

unfoldable pub at_least_one : ℤ → ℕ
at_least_one (pos zero) = 1
at_least_one (pos (suc n)) = suc n
at_least_one (negsuc n) = 1

unfoldable pub new_relay : RelayConfig → Relay
unfolding at_least_one
new_relay c = record {
  batch_size = at_least_one c.batch_size;
  lease = c.lease;
  max_attempts = c.max_attempts;
  worker_id = c.worker_id;
}

-- A limit below 1 never buries.
unfoldable pub is_last_attempt : ℤ → ℕ → Bool
is_last_attempt (pos zero) attempts = false
is_last_attempt (pos (suc n)) attempts = leb (suc n) attempts
is_last_attempt (negsuc n) attempts = false

pub record Batch : Type 0 where
  pub groups : List (List ClaimedMessage)
  pub keys : List Text
  pub count : ℕ

unfoldable pub add_group : List ClaimedMessage → Batch → Batch
add_group ms b = record b { groups = b.groups ++ ms ∷ []; count = b.count + length ms }

unfoldable pub add_key : Text → Batch → Batch
add_key key b = record b { keys = b.keys ++ key ∷ [] }

-- Messages with no key are groups of one.
unfoldable pub add_loose : List ClaimedMessage → Batch → Batch
unfolding add_group
add_loose [] b = b
add_loose (m ∷ ms) b = add_loose ms (add_group (m ∷ []) b)

-- `sort.Slice` by the identifier.
unfoldable pub place_message : ClaimedMessage → List ClaimedMessage → List ClaimedMessage
place_message m [] = m ∷ []
place_message m (n ∷ ms) =
    let rest = place_message m ms in if ltb n.id m.id then n ∷ rest else m ∷ n ∷ ms

unfoldable pub by_message_id : List ClaimedMessage → List ClaimedMessage
unfolding place_message
by_message_id [] = []
by_message_id (m ∷ ms) = place_message m (by_message_id ms)

module _ (database : ℕ → Tick) (publish : ClaimedMessage → Option Text) (relay : Relay) where
  -- The answer is `none` for an error.
  unfoldable pub exec {ℓ} : {A : Type ℓ} → (ℕ → World → World × A) → World → World × Option A
  exec run w =
      let tick = database w.statements in
      let next = record w { statements = suc w.statements } in
      elim tick.outcome [
        | answered ↦ let (after, a) = run tick.now next in (after, some a)
        | lost ↦ let (after, a) = run tick.now next in (after, none)
        | refused ↦ (next, none)
      ]

  unfoldable pub list_partitions : World → World × Option (List Text)
  unfolding exec
  list_partitions = exec (λ now w. (w, candidate_partitions now relay.batch_size w.rows))

  unfoldable pub lease_key : Text → World → World × Option Bool
  unfolding exec
  lease_key key = exec (λ now w.
      let (after, won) = lease_partition relay.worker_id now relay.lease key w.leases in
      (record w { leases = after }, won))

  unfoldable pub release_key : Text → World → World × Option Bool
  unfolding exec
  release_key key =
      exec (λ now w. (record w { leases = release_partition relay.worker_id key w.leases }, true))

  -- A limit of 0 sends no statement.
  unfoldable pub claim_key : Text → ℕ → World → World × Option (List ClaimedMessage)
  unfolding exec by_message_id
  claim_key key zero w = (w, some [])
  claim_key key (suc limit) w =
      exec
        (λ now w.
          let (rows, ms) =
            claim_rows relay.worker_id (now + relay.lease) now key (suc limit) w.rows in
          (record w { rows = rows }, by_message_id ms))
        w

  unfoldable pub update : ℕ → (ℕ → OutboxRow → OutboxRow) → World → World × Option Bool
  unfolding exec
  update i change = exec (λ now w. (record w { rows = update_row i (change now) w.rows }, true))

  unfoldable pub ack : ClaimedMessage → World → World × Option Bool
  unfolding update
  ack m = update m.id acked

  -- The callback runs when the failure is recorded.
  unfoldable pub bury : ClaimedMessage → World × Option Bool → World × Option Bool
  bury m (w, none) = (w, none)
  bury m (w, some b) = (record w { buried = w.buried ++ m ∷ [] }, some b)

  unfoldable pub fail : ClaimedMessage → Text → World → World × Option Bool
  unfolding update bury
  fail m cause w = elim (is_last_attempt relay.max_attempts m.attempts) [
    | true ↦ bury m (update m.id (λ now. failed cause (some now)) w)
    | false ↦ update m.id (λ now. failed cause none) w
  ]

  -- The flag says that an error is returned.
  unfoldable pub publish_one : ClaimedMessage → World → World × Bool
  unfolding ack fail
  publish_one m w =
      let handed = record w { sent = w.sent ++ m ∷ [] } in
      elim (publish m) [
        | none ↦ let (after, answer) = ack m handed in (after, not (is_some answer))
        | some cause ↦ let (after, answer) = fail m cause handed in (after, true)
      ]

  unfoldable pub release : List ClaimedMessage → World → World
  unfolding update
  release [] w = w
  release (m ∷ ms) w = release ms (update m.id (λ now. given_back) w).0

  -- The number of messages that were published, and whether there was an error.
  unfoldable pub publish_group : List ClaimedMessage → World → World × (ℕ × Bool)
  unfolding publish_one release
  publish_group [] w = (w, (0, false))
  publish_group (m ∷ ms) w =
      let (after, error) = publish_one m w in
      elim error [
        | true ↦ (release ms after, (0, true))
        | false ↦
            let (done, (published, failed)) = publish_group ms after in
            (done, (suc published, failed))
      ]

  -- The groups run in any order; they hold distinct rows.
  unfoldable pub publish_batch : List (List ClaimedMessage) → World → World × (ℕ × Bool)
  unfolding publish_group
  publish_batch [] w = (w, (0, false))
  publish_batch (g ∷ gs) w =
      let (one, (n, e)) = publish_group g w in
      let (all, (k, f)) = publish_batch gs one in (all, (n + k, e || f))
