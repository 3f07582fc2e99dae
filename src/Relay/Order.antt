-- ===== src/Relay/Order.antt =====
-- The order in which a group is handed to the transport, whatever fails.
use drel.Base.{
  ℕ, suc, ◌≡◌, refl, sym, ◌∙◌, ap, Bool, true, false, Option, none, some, [], ◌∷◌, ◌++◌, List,
  arith, Text, take, if◌then◌else◌, Bool-cases, Option-cases, inl, inr, ◌⊎◌, append-nil,
  append_assoc, not, is_some, ◌&&◌,
}
use drel.Relay.Table.{OutboxRow, ClaimedMessage, acked, failed, given_back}
use drel.Relay.Run.{
  Outcome, answered, lost, refused, Tick, World, Relay, is_last_attempt, exec, update, ack, fail,
  bury, publish_one, release, publish_group,
}

Outcome-cases : (o : Outcome) → (o ≡ answered) ⊎ ((o ≡ lost) ⊎ (o ≡ refused))
Outcome-cases answered = inl refl
Outcome-cases lost = inr (inl refl)
Outcome-cases refused = inr (inr refl)

abbrev pub is_answered : Outcome → Bool
is_answered answered = true
is_answered lost = false
is_answered refused = false

-- The messages of a group that reach the transport: as many as were published, and one more if there
-- was an error.
abbrev pub tried : List ClaimedMessage → ℕ × Bool → List ClaimedMessage
tried ms (n, failed) = take (if failed then suc n else n) ms

tried_more :
    (m : ClaimedMessage) (ms : List ClaimedMessage) (r : ℕ × Bool)
    → m ∷ tried ms r ≡ tried (m ∷ ms) (suc r.0, r.1)
tried_more m ms (n, true) = refl
tried_more m ms (n, false) = refl

module _ (database : ℕ → Tick) (publish : ClaimedMessage → Option Text) (relay : Relay) where
  -- A message succeeds when the transport accepts it and the statement that records it is answered.
  abbrev pub succeeds : ℕ → ClaimedMessage → Bool
  succeeds n m = not (is_some (publish m)) && is_answered (database n).outcome

  -- The count of the messages before the first one without success, and whether there is one; each
  -- message before it takes one statement.
  unfoldable pub first_error : ℕ → List ClaimedMessage → ℕ × Bool
  first_error n [] = (0, false)
  first_error n (m ∷ ms) =
      let rest = first_error (suc n) ms in if succeeds n m then (suc rest.0, rest.1) else (0, true)

  sent-update :
      (i : ℕ) (change : ℕ → OutboxRow → OutboxRow) (w : World)
      → (update database publish relay i change w).0.sent ≡ w.sent
  unfolding update exec
  sent-update i change w = elim (Outcome-cases (database w.statements).outcome) [
    | inl e ↦ rw (update, exec, e) refl
    | inr (inl e) ↦ rw (update, exec, e) refl
    | inr (inr e) ↦ rw (update, exec, e) refl
  ]

  sent-bury :
      (m : ClaimedMessage) (r : World × Option Bool)
      → (bury database publish relay m r).0.sent ≡ r.0.sent
  unfolding bury
  sent-bury m (w, none) = refl
  sent-bury m (w, some b) = refl

  sent-fail :
      (m : ClaimedMessage) (cause : Text) (w : World)
      → (fail database publish relay m cause w).0.sent ≡ w.sent
  unfolding fail
  sent-fail m cause w = elim (Bool-cases (is_last_attempt relay.max_attempts m.attempts)) [
    | inl e ↦
        rw (fail, e)
          (sent-bury m (update database publish relay m.id (λ now. failed cause (some now)) w)
            ∙ sent-update m.id (λ now. failed cause (some now)) w)
    | inr e ↦ rw (fail, e) (sent-update m.id (λ now. failed cause none) w)
  ]

  abbrev handed : ClaimedMessage → World → World
  handed m w = record w { sent = w.sent ++ m ∷ [] }

  sent-publish_one :
      (m : ClaimedMessage) (w : World)
      → (publish_one database publish relay m w).0.sent ≡ w.sent ++ m ∷ []
  unfolding publish_one ack
  sent-publish_one m w = elim (Option-cases (publish m)) [
    | inl e ↦ rw (publish_one, e) (sent-update m.id acked (handed m w))
    | inr (cause, e) ↦ rw (publish_one, e) (sent-fail m cause (handed m w))
  ]

  sent-release :
      (ms : List ClaimedMessage) (w : World) → (release database publish relay ms w).sent ≡ w.sent
  unfolding release
  sent-release [] w = refl
  sent-release (m ∷ ms) w =
      sent-release ms (update database publish relay m.id (λ now. given_back) w).0
      ∙ sent-update m.id (λ now. given_back) w

  publish_one-succeeds :
      (m : ClaimedMessage) (w : World)
      → not (publish_one database publish relay m w).1 ≡ succeeds w.statements m
  unfolding publish_one ack update exec
  publish_one-succeeds m w = elim (Option-cases (publish m)) [
    | inr (cause, e) ↦ rw (publish_one, e) refl
    | inl e ↦ elim (Outcome-cases (database w.statements).outcome) [
      | inl o ↦ rw (publish_one, e, exec, o) refl
      | inr (inl o) ↦ rw (publish_one, e, exec, o) refl
      | inr (inr o) ↦ rw (publish_one, e, exec, o) refl
    ]
  ]

  statements-publish_one :
      (m : ClaimedMessage) (w : World)
      → (publish_one database publish relay m w).1 ≡ false
      → (publish_one database publish relay m w).0.statements ≡ suc w.statements
  unfolding publish_one ack update exec
  statements-publish_one m w = elim (Option-cases (publish m)) [
    | inr (cause, e) ↦ rw (publish_one, e) (λ h. ground (arith, h))
    | inl e ↦ elim (Outcome-cases (database w.statements).outcome) [
      | inl o ↦ rw (publish_one, e, exec, o) (λ h. refl)
      | inr (inl o) ↦ rw (publish_one, e, exec, o) (λ h. refl)
      | inr (inr o) ↦ rw (publish_one, e, exec, o) (λ h. refl)
    ]
  ]

  -- Whatever statements fail and whatever the transport answers: the messages of a group are handed over
  -- in the order of the group and each at most once, up to and including the first one that the transport
  -- rejects or whose acknowledgement is not answered; the count that is reported is that of the messages
  -- before it, and of all of them if there is none.
  pub publish_group_sent :
      (ms : List ClaimedMessage) (w : World)
      → let (after, result) = publish_group database publish relay ms w in
        (result ≡ first_error w.statements ms)
        × (after.sent ≡ w.sent ++ tried ms (first_error w.statements ms))
  unfolding publish_group first_error
  publish_group_sent [] w = (refl, sym (append-nil w.sent))
  publish_group_sent (m ∷ ms) w = elim (Bool-cases (publish_one database publish relay m w).1) [
    | inl e ↦
        let stops : succeeds w.statements m ≡ false = sym (publish_one-succeeds m w) ∙ ap not e in
        rw (publish_group, e, stops)
          (refl, sent-release ms (publish_one database publish relay m w).0 ∙ sent-publish_one m w)
    | inr e ↦
        let goes_on : succeeds w.statements m ≡ true = sym (publish_one-succeeds m w) ∙ ap not e in
        let after = (publish_one database publish relay m w).0 in
        let next : after.statements ≡ suc w.statements = statements-publish_one m w e in
        let rest = publish_group_sent ms after in
        let counted = rest.0 ∙ ap (λ n. first_error n ms) next in
        let sent = rest.1 ∙ ap (λ n. after.sent ++ tried ms (first_error n ms)) next in
        rw (publish_group, e, goes_on)
          (
            ap (λ r. (suc r.0, r.1)) counted,
            sent
                ∙ ap (λ sent'. sent' ++ tried ms (first_error (suc w.statements) ms))
                    (sent-publish_one m w)
                ∙ append_assoc w.sent (m ∷ []) _
                ∙ ap (λ ms'. w.sent ++ ms') (tried_more m ms (first_error (suc w.statements) ms)),
          )
  ]
