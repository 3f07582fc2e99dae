-- ===== src/Relay/Claim.antt =====
-- What a claim takes, and that no other claim takes it again while it lasts.
use drel.Base.{ℕ, ◌≤◌, List, map, Text}
use drel.Relay.Table.{OutboxRow, ClaimedMessage, claim_rows}

abbrev pub row_ids : List OutboxRow → List ℕ
row_ids = map (λ r. r.id)

abbrev pub message_ids : List ClaimedMessage → List ℕ
message_ids = map (λ m. m.id)

-- Everything that the first claim left of the other rows.
module _ (worker other : Text) (until now until_then later : ℕ) (key other_key : Text)
    (live : later ≤ until) where
  abbrev first_claim : ℕ → List OutboxRow → List OutboxRow × List ClaimedMessage
  first_claim = claim_rows worker until now key

  abbrev second_claim : ℕ → List OutboxRow → List OutboxRow × List ClaimedMessage
  second_claim = claim_rows other until_then later other_key
