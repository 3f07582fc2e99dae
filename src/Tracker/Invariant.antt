-- ===== src/Tracker/Invariant.antt =====
-- The tracker's invariant, and that every operation keeps it.
use drel.Base.{
  ℕ, ◌<◌, ◌≡◌, refl, ◌∙◌, true, false, ◌&&◌, not, Option, none, some, List, arith, ==_iff,
  Bool-cases, Option-cases, inl, inr, Text,
}
use drel.Base.Assoc.{lookup, erase, lookup-insert, lookup-erase}
use drel.Base.Ids.{
  contains, Distinct, remove, contains-append, Distinct-append, contains-remove, Distinct-remove,
}
use drel.Tracker.Keys.{Key, same_key}
use drel.Tracker.Cells.{
  EntityState, Meta, KeyConfig, TrackedEntity, Tracker, nat_same, update, is_added, pk_key,
  add_cell, loaded_cell, new_tracker,
}
use drel.Tracker.Edit.{
  track_new, track_by_key, track, mark_added, attach, detach, mark_deleted, mark_hard_deleted,
  added_cell, attached_cell,
}

-- `entities` holds each tracked cell once, and the map by pointer has an entry for each of them
-- and for nothing else.
pub record Inv {E S : Type 0} (t : Tracker E S) : Type 0 where
  pub distinct : Distinct t.entities
  pub below : (i : ℕ) → contains i t.entities ≡ true → i < t.next
  pub sound :
      (e i : ℕ)
      → lookup nat_same e t.index ≡ some i
      → (contains i t.entities ≡ true) × ((t.cells i).entity ≡ e)
  pub complete :
      (i : ℕ) → contains i t.entities ≡ true → lookup nat_same (t.cells i).entity t.index ≡ some i

module _ {E S : Type 0} where
  pub new_tracker-Inv : (m : Meta E S) → Inv (new_tracker E S m)
  unfolding new_tracker lookup
  new_tracker-Inv m = record {
    distinct = tt;
    below = λ i h. cc;
    sound = λ e i h. cc;
    complete = λ i h. cc;
  }

  -- The map by key plays no part.
  pub Inv-by_pk : (t : Tracker E S) (m : List (Key × ℕ)) → Inv t → Inv (record t { by_pk = m })
  Inv-by_pk t m v = record {
    distinct = v.distinct;
    below = v.below;
    sound = v.sound;
    complete = v.complete;
  }

  -- Cells may change as long as each keeps its entity.
  pub Inv-cells :
      (t : Tracker E S) (cells : ℕ → TrackedEntity E S)
      → ((i : ℕ) → (cells i).entity ≡ (t.cells i).entity)
      → Inv t
      → Inv (record t { cells = cells })
  Inv-cells t cells same v = record {
    distinct = v.distinct;
    below = v.below;
    sound = λ e i h. ((v.sound e i h).0, same i ∙ (v.sound e i h).1);
    complete = λ i h. rw (same i) (v.complete i h);
  }

  pub next_free : (t : Tracker E S) → Inv t → contains t.next t.entities ≡ false
  next_free t v = elim (Bool-cases (contains t.next t.entities)) [
    | inl used ↦ absurd (omega (arith, v.below t.next used))
    | inr free ↦ free
  ]

  pub add_cell-Inv :
      (t : Tracker E S) (te : TrackedEntity E S)
      → Inv t
      → lookup nat_same te.entity t.index ≡ none
      → Inv (add_cell t te)
  unfolding add_cell
  add_cell-Inv t te v new = record {
    distinct = Distinct-append t.next t.entities v.distinct (next_free t v);
    below = λ i h. ground (arith, contains-append i t.next t.entities, v.below i);
    sound = λ e i h. ground (
      arith,
      contains-append i t.next t.entities,
      v.sound e i,
      next_free t v,
      lookup-insert nat_same ==_iff te.entity e t.next t.index,
    );
    complete = λ i h. ground (
      arith,
      contains-append i t.next t.entities,
      v.complete i,
      next_free t v,
      lookup-insert nat_same ==_iff te.entity te.entity t.next t.index,
      lookup-insert nat_same ==_iff te.entity (t.cells i).entity t.next t.index,
    );
  }

  track_new-Inv :
      (k : Option Key) (t : Tracker E S) (e : ℕ) (snap : Option S) (m : Meta E S)
      → Inv t
      → lookup nat_same e t.index ≡ none
      → Inv (track_new k t e snap m).0
  unfolding track_new loaded_cell
  track_new-Inv k t e snap m v new =
      Inv-by_pk _ _ (add_cell-Inv t (loaded_cell e snap m) v (unfold loaded_cell in new))

  track_by_key-Inv :
      (k : Option Key) (t : Tracker E S) (e : ℕ) (snap : Option S) (m : Meta E S)
      → Inv t
      → lookup nat_same e t.index ≡ none
      → Inv (track_by_key k t e snap m).0
  unfolding track_by_key
  track_by_key-Inv none t e snap m v new = track_new-Inv none t e snap m v new
  track_by_key-Inv (some k) t e snap m v new = elim (Option-cases (lookup same_key k t.by_pk)) [
    | inl absent ↦ rw (absent, track_by_key) (track_new-Inv (some k) t e snap m v new)
    | inr (i, found) ↦ rw (found, track_by_key) v
  ]

  pub track-Inv :
      (mem : ℕ → E) (t : Tracker E S) (e : ℕ) (snap : Option S) (m : Meta E S)
      → Inv t
      → Inv (track mem t e snap m).0
  unfolding track
  track-Inv mem t e snap m v = elim (Option-cases (lookup nat_same e t.index)) [
    | inl new ↦ rw (new, track) (track_by_key-Inv (pk_key mem e m) t e snap m v new)
    | inr (i, old) ↦ rw (old, track) v
  ]

  pub mark_added-Inv :
      (registry : Text → Option KeyConfig) (seed : ℕ) (mem : ℕ → E) (t : Tracker E S) (e : ℕ)
      (m : Meta E S)
      → Inv t
      → Inv (mark_added registry seed mem t e m).1
  unfolding mark_added added_cell
  mark_added-Inv registry seed mem t e m v = elim (Option-cases (lookup nat_same e t.index)) [
    | inl new ↦ rw (new, mark_added) (Inv-by_pk _ _ (add_cell-Inv t (added_cell e m) v new))
    | inr (i, old) ↦ rw (old, mark_added) v
  ]

  -- A write to one cell that keeps its entity.
  pub edit-Inv :
      (t : Tracker E S) (i : ℕ) (te : TrackedEntity E S)
      → te.entity ≡ (t.cells i).entity
      → Inv t
      → Inv (record t { cells = update t.cells i te })
  edit-Inv t i te same v = Inv-cells t (update t.cells i te) (λ j. ground arith) v

  pub attach-Inv :
      (mem : ℕ → E) (t : Tracker E S) (e : ℕ) (st : EntityState) (m : Meta E S)
      → Inv t
      → Inv (attach mem t e st m)
  unfolding attach attached_cell
  attach-Inv mem t e st m v = elim (Option-cases (lookup nat_same e t.index)) [
    | inl new ↦ rw (new, attach) (add_cell-Inv t (attached_cell mem e st m) v new)
    | inr (i, old) ↦ rw (old, attach) (edit-Inv t i _ refl v)
  ]

  -- The cell leaves the list, and its entity leaves the map.
  pub removed-Inv :
      (t : Tracker E S) (e i : ℕ)
      → lookup nat_same e t.index ≡ some i
      → Inv t
      → Inv (record t { entities = remove i t.entities; index = erase nat_same e t.index })
  removed-Inv t e i old v = record {
    distinct = Distinct-remove i t.entities v.distinct;
    below = λ j h. ground (arith, contains-remove j i t.entities v.distinct, v.below j);
    sound = λ d j h. ground (
      arith,
      contains-remove j i t.entities v.distinct,
      v.sound d j,
      v.sound e i old,
      lookup-erase nat_same ==_iff e d t.index,
    );
    complete = λ j h. ground (
      arith,
      contains-remove j i t.entities v.distinct,
      v.complete j,
      v.sound e i old,
      lookup-erase nat_same ==_iff e (t.cells j).entity t.index,
    );
  }

  pub detach-Inv : (mem : ℕ → E) (t : Tracker E S) (e : ℕ) → Inv t → Inv (detach mem t e)
  unfolding detach
  detach-Inv mem t e v = elim (Option-cases (lookup nat_same e t.index)) [
    | inl new ↦ rw (new, detach) v
    | inr (i, old) ↦ rw (old, detach) (Inv-by_pk _ _ (removed-Inv t e i old v))
  ]

  abbrev pub after : Tracker E S → Option (Tracker E S) → Tracker E S
  after t none = t
  after t (some u) = u

  pub mark_deleted-Inv :
      (mem : ℕ → E) (t : Tracker E S) (e : ℕ) → Inv t → Inv (after t (mark_deleted mem t e))
  unfolding mark_deleted
  mark_deleted-Inv mem t e v = elim (Option-cases (lookup nat_same e t.index)) [
    | inl new ↦ rw (new, mark_deleted) v
    | inr (i, old) ↦
        rw (old, mark_deleted)
          (elim (Bool-cases (is_added (t.cells i).state && not (t.cells i).flushed)) [
            | inl cancels ↦ rw cancels (detach-Inv mem t e v)
            | inr stays ↦ rw stays (edit-Inv t i _ refl v)
          ])
  ]

  pub mark_hard_deleted-Inv :
      (t : Tracker E S) (e : ℕ) → Inv t → Inv (after t (mark_hard_deleted t e))
  unfolding mark_hard_deleted
  mark_hard_deleted-Inv t e v = elim (Option-cases (lookup nat_same e t.index)) [
    | inl new ↦ rw (new, mark_hard_deleted) v
    | inr (i, old) ↦ rw (old, mark_hard_deleted) (edit-Inv t i _ refl v)
  ]
