-- ===== src/Mutation/Flushed.antt =====
-- What a flush leaves in the tracker.
use drel.Base.{
  ℕ, ◌≡◌, refl, ap, ◌∙◌, Bool, true, not, ◌&&◌, ◌||◌, Option, none, some, [], ◌∷◌, ◌++◌, List, Text,
  arith, keep, map, sym, Bool-cases, Option-cases, inl, inr,
}
use drel.Base.Ids.{contains, contains-keep, keep_none}
use drel.Tracker.Cells.{
  EntityState, Meta, TrackedEntity, Tracker, update, is_added, is_modified, is_deleted,
}
use drel.Tracker.Flush.{
  PendingChanges, no_changes, each_cell, detect_changes, get_pending_changes, mark_flushed,
}
use drel.Tracker.Commit.{pending_path}
use drel.Tracker.Pending.{get_pending_changes_lem}
use drel.Mutation.{
  Failure, Fields, Reply, ok, error, Driver, FlushState, Action, conclude, apply_pending_changes,
  insert_one, update_one, delete_one, each_pending, and_then,
}

contains-both : (j : ℕ) (is js : List ℕ) → contains j (is ++ js) ≡ (contains j is || contains j js)
contains-both j [] js = refl
contains-both j (i ∷ is) js = ground (arith, contains-both j is js)

abbrev all_pending : PendingChanges → List ℕ
all_pending pc = pc.adds ++ (pc.updates ++ pc.deletes)

in_keep :
    (j : ℕ) (p : ℕ → Bool) (is js : List ℕ)
    → js ≡ keep p is
    → contains j js ≡ (contains j is && p j)
in_keep j p is js h = ap (contains j) h ∙ contains-keep p j is

module _ {E S : Type 0} where
  abbrev flag : TrackedEntity E S → TrackedEntity E S
  flag te = record te { flushed = true }

  flagged :
      (is : List ℕ) (cells : ℕ → TrackedEntity E S) (j : ℕ)
      → ((each_cell flag is cells j).flushed ≡ (contains j is || (cells j).flushed))
        × ((each_cell flag is cells j).state ≡ (cells j).state)
  unfolding each_cell
  flagged [] cells j = (refl, refl)
  flagged (i ∷ is) cells j =
      let rest = flagged is (update cells i (flag (cells i))) j in
      (rest.0 ∙ ground arith, rest.1 ∙ ground arith)

  module _ (t : Tracker E S) where
    abbrev marked : Tracker E S
    marked = mark_flushed (all_pending (get_pending_changes t)) t

    pending_marked :
        (j : ℕ)
        → contains j t.entities ≡ true
        → (is_added (t.cells j).state
            || (is_modified (t.cells j).state || is_deleted (t.cells j).state))
          ≡ true
        → (contains j (all_pending (get_pending_changes t)) || (t.cells j).flushed) ≡ true
    pending_marked j c p =
        let (a, u, d) = get_pending_changes_lem t in
        ground (
          arith,
          contains-both j (get_pending_changes t).adds
              ((get_pending_changes t).updates ++ (get_pending_changes t).deletes),
          contains-both j (get_pending_changes t).updates (get_pending_changes t).deletes,
          in_keep j (λ i. not (t.cells i).flushed && is_added (t.cells i).state) t.entities _ a,
          in_keep j (λ i. not (t.cells i).flushed && is_modified (t.cells i).state) t.entities _ u,
          in_keep j (λ i. not (t.cells i).flushed && is_deleted (t.cells i).state) t.entities _ d,
        )

    -- A kind of state that a flush writes is not pending any more.
    nothing_left :
        (kind : EntityState → Bool)
        → ((st : EntityState)
            → kind st ≡ true
            → (is_added st || (is_modified st || is_deleted st)) ≡ true)
        → keep (λ i. not (marked.cells i).flushed && kind (marked.cells i).state) marked.entities
          ≡ []
    unfolding mark_flushed
    nothing_left kind written = keep_none _ t.entities (λ j c.
        let (f, s) = flagged (all_pending (get_pending_changes t)) t.cells j in
        elim (Bool-cases (kind (t.cells j).state)) [
          | inr other ↦ rw (s, other) (ground arith)
          | inl written_kind ↦
              let done = f ∙ pending_marked j c (written (t.cells j).state written_kind) in
              rw done refl
        ])

    flushed_nothing : get_pending_changes marked ≡ no_changes
    flushed_nothing =
        let (a, u, d) = get_pending_changes_lem marked in
        pending_path (get_pending_changes marked) (a ∙ nothing_left is_added (λ st h. ground arith))
          (u ∙ nothing_left is_modified (λ st h. ground arith))
          (d ∙ nothing_left is_deleted (λ st h. ground arith))

-- After a failure, the tracker with the detected changes, in which nothing was marked. After a
-- success, the flushed entities are the pending ones in the order of the statements, and no tracked
-- entity is pending.
abbrev pub IsFlushed : {E S X : Type 0} → Tracker E S → Tracker E S → Reply X (List ℕ) → Type 0
IsFlushed t u (error x) = u ≡ t
IsFlushed t u (ok ids) =
    (ids ≡ all_pending (get_pending_changes t))
    × (u.entities ≡ t.entities)
    × (get_pending_changes u ≡ no_changes)

-- The failure that a reply reports.
abbrev pub failure_of : {X A : Type 0} → Reply X A → Option X
failure_of (ok a) = none
failure_of (error x) = some x

conclude-IsFlushed :
    {D E S X : Type 0} (t : Tracker E S) (later : FlushState D E) (err : Option (Failure X))
    → let ((u, ended), reply) = conclude t (all_pending (get_pending_changes t)) later err in
      (ended ≡ later) × (failure_of reply ≡ err) × IsFlushed t u reply
unfolding conclude
conclude-IsFlushed t later (some f) = (refl, refl, refl)
conclude-IsFlushed t later none =
    (refl, refl, (refl, (unfold mark_flushed in refl), flushed_nothing t))

-- What follows a write that did not fail.
abbrev and_go :
    {D E X : Type 0}
    → FlushState D E × Option (Failure X)
    → Action D E X
    → FlushState D E × Option (Failure X)
and_go (later, none) next = next later
and_go (later, some f) next = (later, some f)

and_go-same :
    {D E X : Type 0} (r : FlushState D E × Option (Failure X)) (f g : Action D E X)
    → ((s : FlushState D E) → f s ≡ g s)
    → and_go r f ≡ and_go r g
and_go-same (later, none) f g h = h later
and_go-same (later, some x) f g h = refl

and_go-and_go :
    {D E X : Type 0} (r : FlushState D E × Option (Failure X)) (f g : Action D E X)
    → and_go (and_go r f) g ≡ and_go r (λ s. and_go (f s) g)
and_go-and_go (later, none) f g = refl
and_go-and_go (later, some x) f g = refl

-- A list of writes, up to the first one that fails.
unfoldable pub run : {D E X : Type 0} → List (Action D E X) → Action D E X
run [] st = (st, none)
run (act ∷ acts) st =
    let (later, err) = act st in elim err [ some f ↦ (later, some f) | none ↦ run acts later ]

run-cons :
    {D E X : Type 0} (act : Action D E X) (acts : List (Action D E X)) (st : FlushState D E)
    → run (act ∷ acts) st ≡ and_go (act st) (run acts)
unfolding run
run-cons act acts st = elim (Option-cases (act st).1) [
  | inl e ↦ rw (run, e) refl
  | inr (f, e) ↦ rw (run, e) refl
]

run-append :
    {D E X : Type 0} (first second : List (Action D E X)) (st : FlushState D E)
    → and_go (run first st) (run second) ≡ run (first ++ second) st
unfolding run
run-append [] second st = refl
run-append (act ∷ first) second st =
    ap (λ r. and_go r (run second)) (run-cons act first st)
    ∙ and_go-and_go (act st) (run first) (run second)
    ∙ and_go-same (act st) _ _ (run-append first second)
    ∙ sym (run-cons act (first ++ second) st)

module _ {D E S R X : Type 0} (driver : Driver D R X) (fields : Meta E S → Fields E R X)
    (actor : Text) where
  -- The write of each pending entity.
  abbrev pub statements : Tracker E S → List (Action D E X)
  statements t =
      let pc = get_pending_changes t in
      map (λ i. insert_one driver fields actor (t.cells i)) pc.adds
      ++ (map (λ i. update_one driver fields actor (t.cells i)) pc.updates
          ++ map (λ i. delete_one driver fields actor (t.cells i)) pc.deletes)

  each_pending-run :
      (act : TrackedEntity E S → Action D E X) (cells : ℕ → TrackedEntity E S) (is : List ℕ)
      (st : FlushState D E)
      → each_pending driver fields actor act cells is st ≡ run (map (λ i. act (cells i)) is) st
  unfolding each_pending run
  each_pending-run act cells [] st = refl
  each_pending-run act cells (i ∷ is) st = elim (Option-cases (act (cells i) st).1) [
    | inl e ↦ rw (each_pending, run, e) (each_pending-run act cells is (act (cells i) st).0)
    | inr (f, e) ↦ rw (each_pending, run, e) refl
  ]

  and_then-and_go :
      (f g : Action D E X) (st : FlushState D E)
      → and_then driver fields actor f g st ≡ and_go (f st) g
  unfolding and_then
  and_then-and_go f g st = elim (Option-cases (f st).1) [
    | inl e ↦ rw (and_then, e) refl
    | inr (x, e) ↦ rw (and_then, e) refl
  ]

  -- Two loops, one after the other.
  both_run :
      (f g : Action D E X) (fs gs : List (Action D E X)) (st : FlushState D E)
      → ((s : FlushState D E) → f s ≡ run fs s)
      → ((s : FlushState D E) → g s ≡ run gs s)
      → and_then driver fields actor f g st ≡ run (fs ++ gs) st
  both_run f g fs gs st h k =
      and_then-and_go f g st
      ∙ ap (λ r. and_go r g) (h st)
      ∙ and_go-same (run fs st) g (run gs) k
      ∙ run-append fs gs st

  -- A flush makes the write of each pending entity, first the inserts, then the updates, then the
  -- deletes, up to the first one that fails. It reports that failure and leaves the tracker as the
  -- detection of changes made it, so that a second try has every pending change again. It succeeds
  -- exactly when no write failed; then it reports the added, the modified and the deleted entities,
  -- in this order, and leaves nothing pending.
  pub apply_pending_changes_lem :
      (tracker : Tracker E S) (st : FlushState D E)
      → let ((after, later), reply) = apply_pending_changes driver fields actor tracker st in
        let t = detect_changes st.mem tracker in
        let end = run (statements t) st in
        (later ≡ end.0) × (failure_of reply ≡ end.1) × IsFlushed t after reply
  unfolding apply_pending_changes
  apply_pending_changes_lem tracker st =
      let t = detect_changes st.mem tracker in
      let pc = get_pending_changes t in
      let inserts =
        each_pending driver fields actor (insert_one driver fields actor) t.cells pc.adds in
      let updates =
        each_pending driver fields actor (update_one driver fields actor) t.cells pc.updates in
      let deletes =
        each_pending driver fields actor (delete_one driver fields actor) t.cells pc.deletes in
      let r =
        and_then driver fields actor inserts (and_then driver fields actor updates deletes) st in
      let same : r ≡ run (statements t) st =
        both_run inserts (and_then driver fields actor updates deletes) _ _ st
          (each_pending-run (insert_one driver fields actor) t.cells pc.adds)
          (λ s.
            both_run updates deletes _ _ s
              (each_pending-run (update_one driver fields actor) t.cells pc.updates)
              (each_pending-run (delete_one driver fields actor) t.cells pc.deletes)) in
      let (ended, said, flushed) = conclude-IsFlushed t r.0 r.1 in
      (ended ∙ ap (λ q. q.0) same, said ∙ ap (λ q. q.1) same, flushed)
