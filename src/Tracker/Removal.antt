-- ===== src/Tracker/Removal.antt =====
-- `MarkDeleted`: an entity that was added and not yet flushed is forgotten, any other is staged for
-- deletion. And what a flush no longer sees.
use drel.Base.{
  ℕ, ◌≡◌, refl, true, false, ◌&&◌, ◌||◌, not, Option, none, some, List, [], ◌∷◌, ◌++◌, arith,
  ==_iff, ==_refl, Text,
}
use drel.Base.Assoc.{lookup, insert, lookup-insert, lookup-erase}
use drel.Base.Ids.{contains, remove, contains-remove, contains-keep}
use drel.Tracker.Keys.{Key}
use drel.Tracker.Cells.{
  EntityState, Meta, KeyConfig, TrackedEntity, Tracker, nat_same, update, is_added, is_modified,
  is_deleted, pk_key, add_cell, index_pk, snapshot_with,
}
use drel.Tracker.Edit.{mark_added, added_cell, mark_deleted, detach, detach_cell, stamp_key}
use drel.Tracker.Flush.{
  get_pending_changes, detect_changes, detect_cell, post_commit, commit_cell, snapshot_of,
}
use drel.Tracker.Invariant.{Inv, next_free}
use drel.Tracker.Pending.{get_pending_changes_lem, each_cell_lem}
use drel.Tracker.Commit.{post_commit-cells}
use drel.Tracker.Rollback.{pending_of_same}

remove_last : (i : ℕ) (is : List ℕ) → contains i is ≡ false → remove i (is ++ i ∷ []) ≡ is
remove_last i [] h = ground (arith, ==_refl i)
remove_last i (j ∷ is) h = ground (arith, remove_last i is)

module _ {E S : Type 0} where
  -- The cell of a tracked entity that no longer cancels.
  stage_delete :
      (mem : ℕ → E) (t : Tracker E S) (e i : ℕ)
      → lookup nat_same e t.index ≡ some i
      → (is_added (t.cells i).state && not (t.cells i).flushed) ≡ false
      → mark_deleted mem t e
        ≡ some (record t {
          cells = update t.cells i (record (t.cells i) {
            state = EntityState.deleted;
            ever_dirty = true;
            flushed = false;
          });
        })
  unfolding mark_deleted
  stage_delete mem t e i tracked stays = rw (tracked, mark_deleted, stays)

  forget :
      (mem : ℕ → E) (t : Tracker E S) (e i : ℕ)
      → lookup nat_same e t.index ≡ some i
      → (is_added (t.cells i).state && not (t.cells i).flushed) ≡ true
      → mark_deleted mem t e ≡ some (detach_cell mem t e i)
  unfolding mark_deleted detach
  forget mem t e i tracked cancels = rw (tracked, mark_deleted, cancels) (rw (tracked, detach))

  module _ (mem : ℕ → E) (t : Tracker E S) (e : ℕ) (m : Meta E S) (b : List (Key × ℕ)) (v : Inv t)
      (new : lookup nat_same e t.index ≡ none) where
    abbrev with_added : Tracker E S
    with_added = record (add_cell t (added_cell e m)) { by_pk = b }

    added_index : lookup nat_same e with_added.index ≡ some t.next
    unfolding add_cell added_cell
    added_index = ground (arith, lookup-insert nat_same ==_iff e e t.next t.index, ==_refl e)

    forgets : mark_deleted mem with_added e ≡ some (detach_cell mem with_added e t.next)
    unfolding add_cell added_cell
    forgets = forget mem with_added e t.next added_index (ground (arith, ==_refl t.next))

    forgotten :
        ((detach_cell mem with_added e t.next).entities ≡ t.entities)
        × (lookup nat_same e (detach_cell mem with_added e t.next).index ≡ none)
    unfolding detach_cell add_cell added_cell
    forgotten = (
      remove_last t.next t.entities (next_free t v),
      ground
          (arith, lookup-erase nat_same ==_iff e e (insert nat_same e t.next t.index), ==_refl e),
    )

    same_pending : get_pending_changes (detach_cell mem with_added e t.next) ≡ get_pending_changes t
    unfolding get_pending_changes
    same_pending = rw forgotten.0 (
        unfold detach_cell add_cell in
        pending_of_same (update t.cells t.next (added_cell e m)) t.cells t.entities
          (λ i c. ground (arith, next_free t v)))

  -- Removing an entity that was just added leaves the entities, and what a flush would write, as
  -- they were before it was added.
  pub mark_deleted-mark_added :
      (registry : Text → Option KeyConfig) (seed : ℕ) (mem : ℕ → E) (t : Tracker E S) (e : ℕ)
      (m : Meta E S)
      → Inv t
      → lookup nat_same e t.index ≡ none
      → let (mem', u) = mark_added registry seed mem t e m in
        (w : Tracker E S) × (mark_deleted mem' u e ≡ some w)
        × (w.entities ≡ t.entities)
        × (lookup nat_same e w.index ≡ none)
        × (get_pending_changes w ≡ get_pending_changes t)
  unfolding mark_added
  mark_deleted-mark_added registry seed mem t e m v new =
      let mem' : ℕ → E = update mem e (stamp_key registry seed (mem e) m) in
      let b : List (Key × ℕ) = index_pk (pk_key mem' e m) t.next t.by_pk in
      rw (new, mark_added)
        (
          detach_cell mem' (with_added mem t e m b v new) e t.next,
          forgets mem' t e m b v new,
          (forgotten mem' t e m b v new).0,
          (forgotten mem' t e m b v new).1,
          same_pending mem' t e m b v new,
        )

  contains-deletes :
      (t : Tracker E S) (i : ℕ)
      → contains i (get_pending_changes t).deletes
        ≡ (contains i t.entities && (not (t.cells i).flushed && is_deleted (t.cells i).state))
  contains-deletes t i = rw ((get_pending_changes_lem t).2) (contains-keep _ i t.entities)

  -- Every branch of a removal: an error for an entity that is not tracked; an added entity that is
  -- not flushed is no longer tracked; any other, an added one that was flushed too, is among the
  -- deletions of the next flush.
  pub mark_deleted_lem :
      (mem : ℕ → E) (t : Tracker E S) (e : ℕ)
      → Inv t
      → (lookup nat_same e t.index ≡ none → mark_deleted mem t e ≡ none)
        × ((i : ℕ)
            → lookup nat_same e t.index ≡ some i
            → (is_added (t.cells i).state && not (t.cells i).flushed) ≡ true
            → (u : Tracker E S) × (mark_deleted mem t e ≡ some u)
              × (lookup nat_same e u.index ≡ none)
              × (contains i u.entities ≡ false))
        × ((i : ℕ)
            → lookup nat_same e t.index ≡ some i
            → (is_added (t.cells i).state && not (t.cells i).flushed) ≡ false
            → (u : Tracker E S) × (mark_deleted mem t e ≡ some u)
              × (contains i (get_pending_changes u).deletes ≡ true))
  mark_deleted_lem mem t e v = (
    (λ h. unfold mark_deleted in rw (h, mark_deleted)),
    (λ i h c. (
      detach_cell mem t e i,
      forget mem t e i h c,
      (unfold detach_cell in ground (arith, lookup-erase nat_same ==_iff e e t.index, ==_refl e)),
      (unfold detach_cell in ground (arith, contains-remove i i t.entities v.distinct, ==_refl i)),
    )),
    (λ i h c. (
      _,
      stage_delete mem t e i h c,
      rw (contains-deletes _ i) (ground (arith, ==_refl i, v.sound e i h)),
    )),
  )

  detected_entities : (mem : ℕ → E) (t : Tracker E S) → (detect_changes mem t).entities ≡ t.entities
  unfolding detect_changes
  detected_entities mem t = refl

  still_flushed :
      (mem : ℕ → E) (t : Tracker E S) (i : ℕ)
      → Inv t
      → contains i t.entities ≡ true
      → (t.cells i).flushed ≡ true
      → ((detect_changes mem t).cells i).flushed ≡ true
  unfolding detect_changes detect_cell
  still_flushed mem t i v tracked flushed =
      rw (each_cell_lem (detect_cell mem) t.entities t.cells i v.distinct, tracked) (ground arith)

  fresh_snapshot :
      (mem : ℕ → E) (te : TrackedEntity E S)
      → (is_added te.state || is_modified te.state) ≡ true
      → (commit_cell te.state mem te).snapshot ≡ snapshot_with te.meta.snapshot (mem te.entity)
  unfolding commit_cell snapshot_of
  fresh_snapshot mem te h = ground arith

  -- A tracked entity, added or modified, that a flush has written is not written again before the
  -- commit, whatever the program writes to it in between: with any later memory no list of pending
  -- changes holds it, and the commit takes that memory for the new snapshot.
  pub flushed_change_lost :
      (t : Tracker E S) (i : ℕ) (later : ℕ → E)
      → Inv t
      → contains i t.entities ≡ true
      → (t.cells i).flushed ≡ true
      → (is_added (t.cells i).state || is_modified (t.cells i).state) ≡ true
      → let pending = get_pending_changes (detect_changes later t) in
        (contains i pending.adds ≡ false)
        × (contains i pending.updates ≡ false)
        × (contains i pending.deletes ≡ false)
        × (((post_commit later t).cells i).snapshot
            ≡ snapshot_with (t.cells i).meta.snapshot (later (t.cells i).entity))
  flushed_change_lost t i later v tracked flushed written =
      let u : Tracker E S = detect_changes later t in
      let pending = get_pending_changes_lem u in
      let done = still_flushed later t i v tracked flushed in
      (
        rw
            (
              pending.0,
              contains-keep (λ j. not (u.cells j).flushed && is_added (u.cells j).state) i
                  u.entities,
            )
            (ground (arith, done)),
        rw
            (
              pending.1,
              contains-keep (λ j. not (u.cells j).flushed && is_modified (u.cells j).state) i
                  u.entities,
            )
            (ground (arith, done)),
        rw
            (
              pending.2,
              contains-keep (λ j. not (u.cells j).flushed && is_deleted (u.cells j).state) i
                  u.entities,
            )
            (ground (arith, done)),
        rw (post_commit-cells later t v i tracked) (fresh_snapshot later (t.cells i) written),
      )
