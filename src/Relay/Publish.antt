-- ===== src/Relay/Publish.antt =====
-- What becomes of the messages of a group.
use drel.Base.{
  ℕ, suc, ◌-◌, ◌≡◌, refl, ap, true, false, Option, none, some, [], ◌∷◌, ◌++◌, List, map, arith,
  Text, if◌then◌else◌, Bool-cases, Option-cases, inl, inr, ◌==◌, ==_iff, Bool, ◌&&◌, ltb, leb, zero,
}
use drel.Retry.{ℤ, pos, negsuc}
use mathlib.Core.Path.{subst}
use drel.Base.Ids.{contains, Distinct}
use drel.Relay.Table.{OutboxRow, ClaimedMessage, update_row, acked, failed, given_back}
use drel.Relay.Claim.{message_ids}
use drel.Relay.Run.{
  answered, Tick, World, Relay, is_last_attempt, exec, update, ack, fail, bury, publish_one,
  release, publish_group,
}

-- What the transport's answers make of a message of the group, and of every other row.
pub data Fate : Type 0 where
  untouched delivered returned : Fate
  rejected : Text → ℕ → Fate

unfoldable pub fate : (ClaimedMessage → Option Text) → List ClaimedMessage → ℕ → Fate
fate publish [] i = untouched
fate publish (m ∷ ms) i = elim (publish m) [
  | none ↦ if m.id == i then delivered else fate publish ms i
  | some cause ↦
      if m.id == i
      then rejected cause m.attempts
      else if contains i (message_ids ms)
      then returned
      else untouched
]

-- The configured limit as a count; 0 is no limit.
abbrev pub limit_of : ℤ → ℕ
limit_of (pos n) = n
limit_of (negsuc n) = 0

-- There is a limit, and the attempts have come up to it.
abbrev pub at_limit : ℕ → ℕ → Bool
at_limit limit attempts = ltb 0 limit && leb limit attempts

is_last_attempt-limit_of :
    (max : ℤ) (attempts : ℕ) → at_limit (limit_of max) attempts ≡ is_last_attempt max attempts
unfolding is_last_attempt
is_last_attempt-limit_of (pos zero) attempts = refl
is_last_attempt-limit_of (pos (suc n)) attempts = ground arith
is_last_attempt-limit_of (negsuc n) attempts = refl

-- How a row shows it afterwards. The lease goes in every case; a message that was not tried gets its
-- attempt back.
unfoldable pub Shows : Relay → Fate → OutboxRow → OutboxRow → Type 0
Shows relay untouched r s = s ≡ r
Shows relay delivered r s =
    (now : ℕ) × (s ≡ record r { claimed_by = none; claimed_until = none; processed_at = some now })
Shows relay returned r s =
    s ≡ record r { claimed_by = none; claimed_until = none; attempts = r.attempts - 1 }
Shows relay (rejected cause attempts) r s =
    (now : ℕ) × (s ≡ record r {
      claimed_by = none;
      claimed_until = none;
      last_error = some cause;
      dead_at = if at_limit (limit_of relay.max_attempts) attempts then some now else r.dead_at;
    })

-- Row by row.
unfoldable pub Both : (OutboxRow → OutboxRow → Type 0) → List OutboxRow → List OutboxRow → Type 0
Both R [] [] = Unit {0}
Both R [] (s ∷ ss) = ⊥
Both R (r ∷ rs) [] = ⊥
Both R (r ∷ rs) (s ∷ ss) = R r s × Both R rs ss

Both-refl :
    (R : OutboxRow → OutboxRow → Type 0)
    → ((r : OutboxRow) → R r r)
    → (rs : List OutboxRow) → Both R rs rs
unfolding Both
Both-refl R f [] = tt
Both-refl R f (r ∷ rs) = (f r, Both-refl R f rs)

Both-map :
    (R S : OutboxRow → OutboxRow → Type 0) (f : OutboxRow → OutboxRow)
    → ((r s : OutboxRow) → R (f r) s → S r s)
    → (rs ss : List OutboxRow) → Both R (map f rs) ss
    → Both S rs ss
unfolding Both
Both-map R S f h [] [] b = tt
Both-map R S f h [] (s ∷ ss) b = b
Both-map R S f h (r ∷ rs) [] b = b
Both-map R S f h (r ∷ rs) (s ∷ ss) b = (h r s b.0, Both-map R S f h rs ss b.1)

module _ (database : ℕ → Tick) (publish : ClaimedMessage → Option Text) (relay : Relay)
    (healthy : (n : ℕ) → (database n).outcome ≡ answered) where
  pub exec-answered :
      {A : Type 0} (run : ℕ → World → World × A) (w : World)
      → exec database publish relay run w ≡ (
          let (after, a) =
            run (database w.statements).now (record w { statements = suc w.statements }) in
          (after, some a))
  unfolding exec
  exec-answered run w = rw (exec, healthy w.statements) refl

  pub update-answered :
      (i : ℕ) (change : ℕ → OutboxRow → OutboxRow) (w : World)
      → update database publish relay i change w ≡ (
        record w {
          statements = suc w.statements;
          rows = update_row i (change (database w.statements).now) w.rows;
        },
        some true,
      )
  unfolding update
  update-answered i change w =
      exec-answered (λ now w'. (record w' { rows = update_row i (change now) w'.rows }, true)) w

  publish_one-accepted :
      (m : ClaimedMessage) (w : World)
      → publish m ≡ none
      → ((publish_one database publish relay m w).0.rows
          ≡ update_row m.id (acked (database w.statements).now) w.rows)
        × ((publish_one database publish relay m w).1 ≡ false)
  unfolding publish_one ack
  publish_one-accepted m w e =
      rw (publish_one, e, update-answered m.id acked (record w { sent = w.sent ++ m ∷ [] }))
        (refl, refl)

  abbrev died : ClaimedMessage → ℕ → Option ℕ
  died m now = if is_last_attempt relay.max_attempts m.attempts then some now else none

  fail-rows :
      (m : ClaimedMessage) (cause : Text) (w : World)
      → (fail database publish relay m cause w).0.rows
        ≡ update_row m.id (failed cause (died m (database w.statements).now)) w.rows
  unfolding fail bury
  fail-rows m cause w = elim (Bool-cases (is_last_attempt relay.max_attempts m.attempts)) [
    | inl e ↦ rw (fail, e, update-answered m.id (λ now. failed cause (some now)) w) refl
    | inr e ↦ rw (fail, e, update-answered m.id (λ now. failed cause none) w) refl
  ]

  publish_one-rejected :
      (m : ClaimedMessage) (w : World) (cause : Text)
      → publish m ≡ some cause
      → ((publish_one database publish relay m w).0.rows
          ≡ update_row m.id (failed cause (died m (database w.statements).now)) w.rows)
        × ((publish_one database publish relay m w).1 ≡ true)
  unfolding publish_one
  publish_one-rejected m w cause e =
      rw (publish_one, e) (fail-rows m cause (record w { sent = w.sent ++ m ∷ [] }), refl)

  -- Every message of the list gets its attempt back, and nothing else changes.
  abbrev returned_of : List ClaimedMessage → ℕ → Fate
  returned_of ms i = if contains i (message_ids ms) then returned else untouched

  abbrev on : ClaimedMessage → (OutboxRow → OutboxRow) → OutboxRow → OutboxRow
  on m f r = if r.id == m.id then f r else r

  release_first :
      (m : ClaimedMessage) (ms : List ClaimedMessage) (r s : OutboxRow)
      → contains m.id (message_ids ms) ≡ false
      → Shows relay (returned_of ms (on m given_back r).id) (on m given_back r) s
      → Shows relay (returned_of (m ∷ ms) r.id) r s
  unfolding Shows given_back
  release_first m ms r s h k = elim (Bool-cases (r.id == m.id)) [
    | inl e ↦
        let same : (m.id == r.id) ≡ true = ground (arith, e) in
        let absent : contains r.id (message_ids ms) ≡ false = rw ((==_iff r.id m.id).0 e) h in
        rw same (rw (e, absent) at k)
    | inr e ↦ let differs : (m.id == r.id) ≡ false = ground (arith, e) in rw differs (rw e at k)
  ]

  abbrev Change : (OutboxRow → Fate) → List OutboxRow → List OutboxRow → Type 0
  Change f = Both (λ r s. Shows relay (f r) r s)

  release-rows :
      (ms : List ClaimedMessage) (w : World)
      → Distinct (message_ids ms)
      → Change (λ r. returned_of ms r.id) w.rows (release database publish relay ms w).rows
  unfolding release Shows update_row
  release-rows [] w h = Both-refl _ (λ r. refl) w.rows
  release-rows (m ∷ ms) w h =
      let next = (update database publish relay m.id (λ now. given_back) w).0 in
      let rest = release-rows ms next h.1 in
      Both-map _ _ (on m given_back) (λ r s. release_first m ms r s h.0) w.rows _
        (subst
          (λ rows.
            Change (λ r. returned_of ms r.id) rows (release database publish relay ms next).rows)
          (ap (λ q. q.0.rows) (update-answered m.id (λ now. given_back) w)) rest)

  fate_absent :
      (ms : List ClaimedMessage) (i : ℕ)
      → contains i (message_ids ms) ≡ false
      → fate publish ms i ≡ untouched
  unfolding fate
  fate_absent [] i h = refl
  fate_absent (m ∷ ms) i h = elim (Option-cases (publish m)) [
    | inl e ↦ rw (fate, e) (ground (arith, h, fate_absent ms i))
    | inr (cause, e) ↦ rw (fate, e) (ground (arith, h))
  ]

  accepted_first :
      (m : ClaimedMessage) (ms : List ClaimedMessage) (now : ℕ) (r s : OutboxRow)
      → publish m ≡ none
      → contains m.id (message_ids ms) ≡ false
      → Shows relay (fate publish ms (on m (acked now) r).id) (on m (acked now) r) s
      → Shows relay (fate publish (m ∷ ms) r.id) r s
  unfolding Shows acked fate
  accepted_first m ms now r s a h k = elim (Bool-cases (r.id == m.id)) [
    | inl e ↦
        let same : (m.id == r.id) ≡ true = ground (arith, e) in
        let absent = fate_absent ms r.id (rw ((==_iff r.id m.id).0 e) h) in
        rw (fate, a, same) (now, rw (e, absent) at k)
    | inr e ↦
        let differs : (m.id == r.id) ≡ false = ground (arith, e) in
        rw (fate, a, differs) (rw e at k)
  ]

  rejected_first :
      (m : ClaimedMessage) (ms : List ClaimedMessage) (cause : Text) (now : ℕ) (r s : OutboxRow)
      → publish m ≡ some cause
      → contains m.id (message_ids ms) ≡ false
      → Shows relay
          (returned_of ms (on m (failed cause (died m now)) r).id)
          (on m (failed cause (died m now)) r)
          s
      → Shows relay (fate publish (m ∷ ms) r.id) r s
  unfolding Shows failed fate
  rejected_first m ms cause now r s a h k = elim (Bool-cases (r.id == m.id)) [
    | inl e ↦
        let same : (m.id == r.id) ≡ true = ground (arith, e) in
        let absent : contains r.id (message_ids ms) ≡ false = rw ((==_iff r.id m.id).0 e) h in
        let limit = is_last_attempt-limit_of relay.max_attempts m.attempts in
        elim (Bool-cases (is_last_attempt relay.max_attempts m.attempts)) [
          | inl d ↦ rw (fate, a, same, limit, d) (now, rw (d, e, absent) at k)
          | inr d ↦ rw (fate, a, same, limit, d) (now, rw (d, e, absent) at k)
        ]
    | inr e ↦
        let differs : (m.id == r.id) ≡ false = ground (arith, e) in
        rw (fate, a, differs) (rw e at k)
  ]

  -- Where every statement is answered and no message stands twice in the group, each row shows what the
  -- transport's answers made of its message: the messages before the first rejected one are processed,
  -- that one has its error and is marked dead exactly when there is an attempt limit of at least 1 and
  -- its attempts have come up to it, those after it have their attempt back, none keeps a lease, and
  -- every other row is as it was.
  pub publish_group_lem :
      (ms : List ClaimedMessage) (w : World)
      → Distinct (message_ids ms)
      → Both
          (λ r s. Shows relay (fate publish ms r.id) r s)
          w.rows
          (publish_group database publish relay ms w).0.rows
  unfolding publish_group Shows fate update_row
  publish_group_lem [] w h = Both-refl _ (λ r. refl) w.rows
  publish_group_lem (m ∷ ms) w h = elim (Option-cases (publish m)) [
    | inl a ↦
        let one = publish_one-accepted m w a in
        let after = (publish_one database publish relay m w).0 in
        rw (publish_group, one.1)
          (Both-map _ _ (on m (acked (database w.statements).now))
            (λ r s. accepted_first m ms _ r s a h.0) w.rows _
            (subst
              (λ rows.
                Change (λ r. fate publish ms r.id) rows
                  (publish_group database publish relay ms after).0.rows)
              one.0 (publish_group_lem ms after h.1)))
    | inr (cause, a) ↦
        let one = publish_one-rejected m w cause a in
        let after = (publish_one database publish relay m w).0 in
        rw (publish_group, one.1)
          (Both-map _ _ (on m (failed cause (died m (database w.statements).now)))
            (λ r s. rejected_first m ms cause _ r s a h.0) w.rows _
            (subst
              (λ rows.
                Change (λ r. returned_of ms r.id) rows
                  (release database publish relay ms after).rows)
              one.0 (release-rows ms after h.1)))
  ]
