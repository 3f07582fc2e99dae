-- ===== src/Tests/Relay.antt =====
-- The relay at concrete inputs.
use drel.Base.{
  ℕ, ◌≡◌, refl, Option, none, some, [], ◌∷◌, List, arith, Text, codes, ◌==◌, if◌then◌else◌,
}
use drel.Retry.{pos}
use drel.Relay.Table.{
  OutboxRow, ClaimedMessage, Lease, Leases, claim_rows, claimed, message_of, is_claimable,
  lease_partition,
}
use drel.Relay.Run.{
  Tick, World, Relay, RelayConfig, new_relay, answered, lost, refused, Outcome, publish_group,
}
use drel.Relay.Batch.{run_once}
use drel.Relay.Exclusion.{
  Board, Step, Reach, Held, Holding, empty_board, leased, hold, mutual_exclusion,
}
use drel.Relay.Claim.{message_ids}
use drel.Relay.Publish.{Both, Shows, fate, publish_group_lem}
use drel.Relay.Order.{tried, first_error, publish_group_sent}
use drel.Relay.Released.{IsClean, run_once_lem}

abbrev row : ℕ → Option Text → OutboxRow
row i key = record {
  id = i;
  type = codes "orders.Placed";
  payload = codes "{}";
  partition_key = key;
  attempts = 0;
  claimed_by = none;
  claimed_until = none;
  processed_at = none;
  dead_at = none;
  last_error = none;
}

abbrev rows : List OutboxRow
rows =
    row 1 (some (codes "a")) ∷ row 2 none ∷ row 3 (some (codes "a")) ∷ row 4 (some (codes "a")) ∷ []

abbrev no_leases : Leases
no_leases k = none

abbrev handed_over : Board
handed_over =
    leased (codes "two") 10 (codes "a")
      (record (leased (codes "one") 10 (codes "a") (empty_board no_leases)) { time = 20 })

-- The second replica leases the partition after the first one's lease has ended.
handed_over-Reach : Reach (empty_board no_leases) handed_over
unfolding leased
handed_over-Reach =
    Reach.then_step
      (Reach.then_step (Reach.then_step Reach.here (Step.leases_key _ (codes "one") 10 (codes "a")))
        (Step.passes _ 20 (omega arith)))
      (Step.leases_key _ (codes "two") 10 (codes "a"))

abbrev second_holding : Holding
second_holding = record { worker = codes "two"; key = codes "a"; until = 30 }

second-Held : Held second_holding handed_over.holdings
unfolding leased lease_partition hold
second-Held = Held.first

mutual_exclusion_example :
    (second_holding.worker ≡ second_holding.worker) × (second_holding.until ≡ second_holding.until)
unfolding leased
mutual_exclusion_example =
    mutual_exclusion handed_over-Reach second_holding second_holding second-Held second-Held refl
      (omega arith) (omega arith)

abbrev relay : Relay
relay =
    new_relay
      (record { batch_size = pos 10; lease = 30; max_attempts = pos 1; worker_id = codes "one" })

-- Every statement is answered, one unit of time after the other.
abbrev sound_database : ℕ → Tick
sound_database n = record { now = n; outcome = answered }

abbrev second_fails : ℕ → Option Text
second_fails i = if i == 3 then some (codes "unreachable") else none

abbrev transport : ClaimedMessage → Option Text
transport m = second_fails m.id

abbrev world : World
world = record { rows = rows; leases = no_leases; statements = 0; sent = []; buried = [] }

abbrev group_of_a : List ClaimedMessage
group_of_a = (claim_rows (codes "one") 30 0 (codes "a") 10 rows).1

publish_group_example :
    Both
      (λ r s. Shows relay (fate transport group_of_a r.id) r s)
      rows
      (publish_group sound_database transport relay group_of_a world).0.rows
unfolding claim_rows is_claimable
publish_group_example =
    publish_group_lem sound_database transport relay (λ n. refl) group_of_a world
      (refl, (refl, (refl, tt)))

publish_group_sent_example :
    let (after, result) = publish_group sound_database transport relay group_of_a world in
    (result ≡ first_error sound_database transport relay 0 group_of_a)
    × (after.sent ≡ tried group_of_a (first_error sound_database transport relay 0 group_of_a))
publish_group_sent_example = publish_group_sent sound_database transport relay group_of_a world

run_once_example :
    IsClean no_leases (run_once sound_database transport relay world).0.leases (codes "a")
run_once_example = run_once_lem sound_database transport relay (λ n. refl) world (codes "a")

-- The statement with this number does not run.
abbrev failing_at : ℕ → ℕ → Tick
failing_at k n = record { now = n; outcome = if n == k then refused else answered }

-- The claim of the messages without a key fails after partition `a` was leased: the lease stays.
left_leased :
    (run_once (failing_at 3) transport relay world).0.leases (codes "a")
    ≡ some (record { claimed_by = codes "one"; claimed_until = 31 })
unfolding run_once drel.Relay.Run.list_partitions drel.Relay.Table.candidate_partitions new_relay
    drel.Relay.Run.lease_key lease_partition drel.Relay.Run.claim_key claim_rows is_claimable
    drel.Relay.Run.add_group drel.Relay.Run.add_key
left_leased = refl

-- The failure of message 3 is not recorded: it keeps its claim, and message 4 of its partition is given
-- back, so that the next run can claim 4 while 3 is neither published nor dead.
abbrev pair : List OutboxRow
pair = row 3 (some (codes "a")) ∷ row 4 (some (codes "a")) ∷ []

abbrev after_pair : World
after_pair =
    (publish_group (failing_at 1) transport relay
      (claim_rows (codes "one") 30 0 (codes "a") 10 pair).1
      (record world {
        rows = (claim_rows (codes "one") 30 0 (codes "a") 10 pair).0;
        statements = 1;
      })).0

overtaken : message_ids (claim_rows (codes "one") 40 10 (codes "a") 10 after_pair.rows).1 ≡ 4 ∷ []
unfolding claim_rows publish_group is_claimable drel.Relay.Run.is_last_attempt new_relay
    drel.Relay.Table.update_row drel.Relay.Table.given_back
overtaken = refl
