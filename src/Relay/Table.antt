-- ===== src/Relay/Table.antt =====
-- The outbox table and the table of partition leases (OutboxSchema), and what each statement of the relay
-- does to them. The rows stand in the order of their ids, in which they were inserted. A time is a
-- number, the same for every replica; NULL is `none`.
use drel.Base.{
  ℕ, zero, suc, ◌+◌, ◌-◌, Bool, true, false, ◌&&◌, ◌||◌, not, Option, none, some, [], ◌∷◌, List,
  map, Text, ltb, ◌==◌, if◌then◌else◌, is_some, same_text, take,
}

pub record OutboxRow : Type 0 where
  pub id : ℕ
  pub type : Text
  pub payload : Text
  pub partition_key : Option Text
  pub attempts : ℕ
  pub claimed_by : Option Text
  pub claimed_until : Option ℕ
  pub processed_at : Option ℕ
  pub dead_at : Option ℕ
  pub last_error : Option Text

pub record ClaimedMessage : Type 0 where
  pub id : ℕ
  pub type : Text
  pub payload : Text
  pub partition_key : Text
  pub attempts : ℕ

-- A row of the lease table, whose key is the partition key.
pub record Lease : Type 0 where
  pub claimed_by : Text
  pub claimed_until : ℕ

abbrev pub Leases : Type 0
Leases = Text → Option Lease

-- `claimed_until IS NULL OR claimed_until < now`.
abbrev pub is_free : ℕ → Option ℕ → Bool
is_free now none = true
is_free now (some until) = ltb until now

-- An open row without a live claim.
abbrev pub can_claim : ℕ → OutboxRow → Bool
can_claim now r =
    not (is_some r.processed_at) && (not (is_some r.dead_at) && is_free now r.claimed_until)

-- The filter of a claim: the rows without a key for an empty one.
abbrev pub has_key : Text → Option Text → Bool
has_key [] o = not (is_some o)
has_key (c ∷ t) none = false
has_key (c ∷ t) (some k) = same_text k (c ∷ t)

abbrev pub is_one_of : Text → List Text → Bool
is_one_of k [] = false
is_one_of k (j ∷ js) = same_text j k || is_one_of k js

-- The keys with a row that can be claimed, by their oldest such row.
unfoldable candidates_of : ℕ → List Text → List OutboxRow → List Text
candidates_of now seen [] = []
candidates_of now seen (r ∷ rows) = elim r.partition_key [
  | none ↦ candidates_of now seen rows
  | some k ↦ elim (can_claim now r && not (is_one_of k seen)) [
    | true ↦ k ∷ candidates_of now (k ∷ seen) rows
    | false ↦ candidates_of now seen rows
  ]
]

unfoldable pub candidate_partitions : ℕ → ℕ → List OutboxRow → List Text
unfolding candidates_of
candidate_partitions now limit rows = take limit (candidates_of now [] rows)

abbrev pub set_lease : Text → Option Lease → Leases → Leases
set_lease key l leases k = if same_text k key then l else leases k

-- The condition of the upsert: no row, or one whose lease has ended.
abbrev pub is_vacant : ℕ → Option Lease → Bool
is_vacant now none = true
is_vacant now (some l) = ltb l.claimed_until now

unfoldable pub lease_partition : Text → ℕ → ℕ → Text → Leases → Leases × Bool
lease_partition worker now lease key leases =
    if is_vacant now (leases key)
    then (
      set_lease key (some (record { claimed_by = worker; claimed_until = now + lease })) leases,
      true,
    )
    else (leases, false)

abbrev pub is_held_by : Text → Option Lease → Bool
is_held_by worker none = false
is_held_by worker (some l) = same_text l.claimed_by worker

unfoldable pub release_partition : Text → Text → Leases → Leases
release_partition worker key leases =
    if is_held_by worker (leases key) then set_lease key none leases else leases

unfoldable pub claimed : Text → ℕ → OutboxRow → OutboxRow
claimed worker until r = record r {
  claimed_by = some worker;
  claimed_until = some until;
  attempts = suc r.attempts;
}

-- A NULL key is scanned as the empty text.
abbrev key_text : Option Text → Text
key_text none = []
key_text (some k) = k

unfoldable pub message_of : OutboxRow → ClaimedMessage
message_of r = record {
  id = r.id;
  type = r.type;
  payload = r.payload;
  partition_key = key_text r.partition_key;
  attempts = r.attempts;
}

unfoldable pub is_claimable : ℕ → Text → OutboxRow → Bool
is_claimable now key r = can_claim now r && has_key key r.partition_key

-- The claim of at most `limit` rows, and what `RETURNING` gives back.
unfoldable pub claim_rows :
    Text → ℕ → ℕ → Text → ℕ → List OutboxRow → List OutboxRow × List ClaimedMessage
unfolding claimed message_of
claim_rows worker until now key zero rows = (rows, [])
claim_rows worker until now key (suc limit) [] = ([], [])
claim_rows worker until now key (suc limit) (r ∷ rows) = elim (is_claimable now key r) [
  | true ↦
      let rest = claim_rows worker until now key limit rows in
      (claimed worker until r ∷ rest.0, message_of (claimed worker until r) ∷ rest.1)
  | false ↦ let rest = claim_rows worker until now key (suc limit) rows in (r ∷ rest.0, rest.1)
]

-- `UPDATE ... WHERE id = ?`.
unfoldable pub update_row : ℕ → (OutboxRow → OutboxRow) → List OutboxRow → List OutboxRow
update_row i f = map (λ r. if r.id == i then f r else r)

abbrev pub unclaimed : OutboxRow → OutboxRow
unclaimed r = record r { claimed_by = none; claimed_until = none }

unfoldable pub acked : ℕ → OutboxRow → OutboxRow
acked now r = record (unclaimed r) { processed_at = some now }

-- `dead` is the time for a message that reached the limit.
unfoldable pub failed : Text → Option ℕ → OutboxRow → OutboxRow
failed cause none r = record (unclaimed r) { last_error = some cause }
failed cause (some now) r = record (unclaimed r) { last_error = some cause; dead_at = some now }

-- A claim has raised the counter before, so the subtraction does not stop at 0.
unfoldable pub given_back : OutboxRow → OutboxRow
given_back r = record (unclaimed r) { attempts = r.attempts - 1 }
