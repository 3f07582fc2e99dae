-- ===== src/Transaction/Nested.antt =====
-- A nested savepoint: with an error it leaves the tracker and the events as they were.
use drel.Base.{
  ℕ, suc, ◌≡◌, refl, sym, ◌∙◌, ap, true, Option, none, some, [], ◌∷◌, ◌++◌, List, Text, codes,
  length, take, append_assoc, append-nil,
}
use drel.Base.Ids.{contains}
use drel.Dialect.Builder.{decimal}
use drel.Tracker.Cells.{Meta, Tracker}
use drel.Tracker.Flush.{no_changes, get_pending_changes, detect_changes}
use drel.Tracker.Savepoint.{TrackerState, save}
use drel.Tracker.Rollback.{entities-restore, restored_cell, pending_back}
use drel.Mutation.{Failure, Fields, Reply, ok, error, Driver, FlushState, apply_pending_changes}
use drel.Mutation.Flushed.{IsFlushed, apply_pending_changes_lem}
use drel.Transaction.{
  TxError, Control, savepoint, release_savepoint, rollback_to, Tx, Inside, flush_changes,
  flushed_events, hold_events, save_changes, send, unwound, rewound, rewind_savepoint,
  released_savepoint, saved_or_rewound, nested, opened, with_savepoint, sanitize_savepoint,
}

-- One list begins with another.
abbrev pub Extends {ℓ} : {A : Type ℓ} → List A → List A → Type ℓ
Extends {A} xs ys = (more : List A) × (ys ≡ xs ++ more)

take-append {ℓ} : {A : Type ℓ} (xs ys : List A) → take (length xs) (xs ++ ys) ≡ xs
take-append [] ys = refl
take-append (x ∷ xs) ys = ap (λ r. x ∷ r) (take-append xs ys)

Extends-take {ℓ} : {A : Type ℓ} (xs ys : List A) → Extends xs ys → take (length xs) ys ≡ xs
Extends-take xs ys (more, e) = rw e (take-append xs more)

Extends-trans {ℓ} : {A : Type ℓ} (xs ys zs : List A) → Extends xs ys → Extends ys zs → Extends xs zs
Extends-trans xs ys zs (m, e) (n, f) = (m ++ n, f ∙ ap (λ q. q ++ n) e ∙ append_assoc xs m n)

module _ {D E S R X V : Type 0} (driver : Driver D R X) (fields : Meta E S → Fields E R X)
    (actor : Text) (control : D → Control → D × Option X) (pending_events : E → List V)
    (clear_events : E → E) where
  -- The tracked entities, their cells, the pending changes and the held events are those of before.
  pub record IsRestored (before after : Tx D E S V) : Type 0 where
    pub entities : after.tracker.entities ≡ before.tracker.entities
    pub cells :
        (i : ℕ)
        → contains i before.tracker.entities ≡ true
        → after.tracker.cells i ≡ before.tracker.cells i
    pub pending : get_pending_changes after.tracker ≡ get_pending_changes before.tracker
    pub events : after.held_events ≡ before.held_events

  unfoldable pub EndsNested : Tx D E S V → Tx D E S V → Option (TxError X) → Type 0
  EndsNested before after (some e) = IsRestored before after
  EndsNested before after none = get_pending_changes after.tracker ≡ no_changes

  -- `SaveChanges`: without an error nothing is pending, and events are only added.
  saved_changes :
      (tx : Tx D E S V) (t : Tracker E S)
      (r : (Tracker E S × FlushState D E) × Reply (Failure X) (List ℕ))
      → IsFlushed t r.0.0 r.1
      → let s =
          hold_events driver fields actor control pending_events clear_events
            (flushed_events driver fields actor control pending_events clear_events tx r) in
        Extends tx.held_events s.0.held_events
        × (s.1 ≡ none → get_pending_changes s.0.tracker ≡ no_changes)
  unfolding hold_events flushed_events
  saved_changes tx t (ts, error f) h = (([], sym (append-nil tx.held_events)), λ e. absurd (cc e))
  saved_changes tx t (ts, ok is) h = ((_, refl), λ e. h.2)

  module _ (before : Tx D E S V)
      (rolls_back : (d : D) (sp : Text) → (control d (rollback_to sp)).1 ≡ none) where
    abbrev saved : TrackerState E S
    saved = save before.tracker

    abbrev held : ℕ
    held = length before.held_events

    unwound-IsRestored :
        (tx : Tx D E S V)
        → Extends before.held_events tx.held_events
        → IsRestored before
            (unwound driver fields actor control pending_events clear_events saved held tx)
    unfolding unwound
    unwound-IsRestored tx h = record {
      entities = entities-restore tx.state.mem saved tx.tracker ∙ (unfold save in refl);
      cells = λ i c. restored_cell tx.state.mem before.tracker tx.tracker i c;
      pending = pending_back tx.state.mem before.tracker tx.tracker;
      events = Extends-take before.held_events tx.held_events h;
    }

    rewind-EndsNested :
        (sp : Text) (cause : TxError X) (tx : Tx D E S V)
        → Extends before.held_events tx.held_events
        → let r =
            rewind_savepoint driver fields actor control pending_events clear_events sp saved held
              cause tx in
          EndsNested before r.0 r.1
    unfolding rewind_savepoint rewound send EndsNested
    rewind-EndsNested sp cause tx h =
        rw (rewound, rolls_back tx.state.db sp) (unwound-IsRestored _ h)

    released-EndsNested :
        (tx : Tx D E S V) (err : Option X)
        → Extends before.held_events tx.held_events
        → get_pending_changes tx.tracker ≡ no_changes
        → let r =
            released_savepoint driver fields actor control pending_events clear_events saved held
              (tx, err) in
          EndsNested before r.0 r.1
    unfolding released_savepoint EndsNested
    released-EndsNested tx none h p = p
    released-EndsNested tx (some x) h p = unwound-IsRestored tx h

    saved-EndsNested :
        (sp : Text) (tx : Tx D E S V) (err : Option (TxError X))
        → Extends before.held_events tx.held_events
        → (err ≡ none → get_pending_changes tx.tracker ≡ no_changes)
        → let r =
            saved_or_rewound driver fields actor control pending_events clear_events sp saved held
              (tx, err) in
          EndsNested before r.0 r.1
    unfolding saved_or_rewound send
    saved-EndsNested sp tx (some e) h p = rewind-EndsNested sp e tx h
    saved-EndsNested sp tx none h p =
        let sent =
          send driver fields actor control pending_events clear_events (release_savepoint sp) tx in
        released-EndsNested sent.0 sent.1 h (p refl)

    nested-EndsNested :
        (sp : Text) (tx : Tx D E S V) (err : Option (TxError X))
        → Extends before.held_events tx.held_events
        → let r =
            nested driver fields actor control pending_events clear_events sp saved held
              (tx, err) in
          EndsNested before r.0 r.1
    unfolding nested save_changes flush_changes
    nested-EndsNested sp tx (some e) h = rewind-EndsNested sp e tx h
    nested-EndsNested sp tx none h =
        let flush = apply_pending_changes driver fields actor tx.tracker tx.state in
        let s =
          saved_changes tx (detect_changes tx.state.mem tx.tracker) flush
            (apply_pending_changes_lem driver fields actor tx.tracker tx.state).2 in
        let done = save_changes driver fields actor control pending_events clear_events tx in
        saved-EndsNested sp done.0 done.1
          (Extends-trans before.held_events tx.held_events done.0.held_events h s.0) s.1

    opened-EndsNested :
        (sp : Text) (fn : Inside D E S V X)
        → ((tx : Tx D E S V) → Extends tx.held_events (fn tx).0.held_events)
        → (tx : Tx D E S V) (err : Option X) → tx.tracker ≡ before.tracker
        → tx.held_events ≡ before.held_events
        → let r =
            opened driver fields actor control pending_events clear_events sp saved held fn
              (tx, err) in
          EndsNested before r.0 r.1
    unfolding opened EndsNested
    opened-EndsNested sp fn adds tx (some x) t h = record {
      entities = ap (λ u. u.entities) t;
      cells = λ i c. ap (λ u. u.cells i) t;
      pending = ap (λ u. get_pending_changes u) t;
      events = h;
    }
    opened-EndsNested sp fn adds tx none t h = nested-EndsNested sp (fn tx).0 (fn tx).1 (
        Extends-trans before.held_events tx.held_events (fn tx).0.held_events
          ([], h ∙ sym (append-nil before.held_events)) (adds tx))

  -- A savepoint whose function only adds events, where the database does not refuse the rollback to a
  -- savepoint: with an error, wherever it arose (the savepoint, the function, the flush or the release),
  -- the tracked entities, their cells, the pending changes and the held events are as before it; without
  -- an error nothing is left pending.
  pub with_savepoint_lem :
      ((d : D) (sp : Text) → (control d (rollback_to sp)).1 ≡ none)
      → (name : Text) (fn : Inside D E S V X)
      → ((tx : Tx D E S V) → Extends tx.held_events (fn tx).0.held_events)
      → (tx : Tx D E S V)
      → let r = with_savepoint driver fields actor control pending_events clear_events name fn tx in
        EndsNested tx r.0 r.1
  unfolding with_savepoint send
  with_savepoint_lem rolls_back name fn adds tx =
      let counted = record tx { sp_counter = suc tx.sp_counter } in
      let sp = sanitize_savepoint name ++ (codes "_" ++ decimal (suc tx.sp_counter)) in
      let sent =
        send driver fields actor control pending_events clear_events (savepoint sp) counted in
      opened-EndsNested tx rolls_back sp fn adds sent.0 sent.1 refl refl
