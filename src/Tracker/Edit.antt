-- ===== src/Tracker/Edit.antt =====
-- `Track`, `MarkAdded`, `stampKey`, `Attach`, `Detach`, `MarkDeleted` and `MarkHardDeleted`.
use drel.Base.{
  ℕ, suc, true, false, ◌&&◌, not, Option, none, some, List, [], ◌∷◌, Text, if◌then◌else◌,
}
use drel.Base.Assoc.{lookup, erase}
use drel.Base.Ids.{remove}
use drel.Tracker.Keys.{Pk, Key, same_key}
use drel.Tracker.Cells.{
  EntityState, KeyStrategy, Meta, KeyConfig, TrackedEntity, Tracker, nat_same, update, is_unchanged,
  is_added, is_modified, index_pk, drop_pk, pk_key, add_cell, loaded_cell, snapshot_with,
}

module _ {E S : Type 0} where
  -- A new entity, with the identity key that it may have.
  unfoldable pub track_new : Option Key → Tracker E S → ℕ → Option S → Meta E S → Tracker E S × ℕ
  track_new k t e snap m =
      (record (add_cell t (loaded_cell e snap m)) { by_pk = index_pk k t.next t.by_pk }, e)

  unfoldable pub track_by_key : Option Key → Tracker E S → ℕ → Option S → Meta E S → Tracker E S × ℕ
  unfolding track_new
  track_by_key none t e snap m = track_new none t e snap m
  track_by_key (some k) t e snap m = elim (lookup same_key k t.by_pk) [
    | some i ↦ (t, (t.cells i).entity)
    | none ↦ track_new (some k) t e snap m
  ]

  -- `Track`: the tracker, and the canonical instance of the row.
  unfoldable pub track : (ℕ → E) → Tracker E S → ℕ → Option S → Meta E S → Tracker E S × ℕ
  unfolding track_by_key
  track mem t e snap m = elim (lookup nat_same e t.index) [
    | some i ↦ (t, (t.cells i).entity)
    | none ↦ track_by_key (pk_key mem e m) t e snap m
  ]

  stamp_with : KeyStrategy → Option (ℕ → Pk) → ℕ → E → Meta E S → E
  stamp_with KeyStrategy.auto_increment gen seed e m = e
  stamp_with KeyStrategy.app_assigned none seed e m = e
  stamp_with KeyStrategy.app_assigned (some gen) seed e m = elim m.set_key [
    | none ↦ e
    | some set ↦ elim m.key_is_zero [
      | none ↦ e
      | some zero? ↦ if zero? e then set e (gen seed) else e
    ]
  ]

  -- `stampKey` on what the pointer points at; the registry goes before the meta.
  unfoldable pub stamp_key : (Text → Option KeyConfig) → ℕ → E → Meta E S → E
  unfolding stamp_with
  stamp_key registry seed e m = elim (registry m.table) [
    | none ↦ stamp_with m.key_strategy m.generate_key seed e m
    | some cfg ↦ stamp_with cfg.strategy cfg.generate seed e m
  ]

  unfoldable pub added_cell : ℕ → Meta E S → TrackedEntity E S
  added_cell e m = record {
    entity = e;
    state = EntityState.added;
    snapshot = none;
    meta = m;
    hard_delete = false;
    force_update = false;
    loaded = false;
    ever_dirty = false;
    flushed = false;
  }

  -- `MarkAdded`: the memory, where the key may have been stamped, and the tracker.
  unfoldable pub mark_added :
      (Text → Option KeyConfig) → ℕ → (ℕ → E) → Tracker E S → ℕ → Meta E S → (ℕ → E) × Tracker E S
  mark_added registry seed mem t e m = elim (lookup nat_same e t.index) [
    | some i ↦ (mem, t)
    | none ↦
        let mem' = update mem e (stamp_key registry seed (mem e) m) in
        (
          mem',
          record (add_cell t (added_cell e m)) {
            by_pk = index_pk (pk_key mem' e m) t.next t.by_pk;
          },
        )
  ]

  unfoldable pub attached_cell : (ℕ → E) → ℕ → EntityState → Meta E S → TrackedEntity E S
  attached_cell mem e st m = record {
    entity = e;
    state = st;
    snapshot = if is_unchanged st then snapshot_with m.snapshot (mem e) else none;
    meta = m;
    hard_delete = false;
    force_update = is_modified st;
    loaded = is_unchanged st;
    ever_dirty = false;
    flushed = false;
  }

  -- `Attach`: a new entity is not indexed by its key.
  unfoldable pub attach : (ℕ → E) → Tracker E S → ℕ → EntityState → Meta E S → Tracker E S
  attach mem t e st m = elim (lookup nat_same e t.index) [
    | some i ↦ record t {
      cells =
          update t.cells i
            (record (t.cells i) { state = st; meta = m; force_update = is_modified st });
    }
    | none ↦ add_cell t (attached_cell mem e st m)
  ]

  unfoldable pub detach_cell : (ℕ → E) → Tracker E S → ℕ → ℕ → Tracker E S
  detach_cell mem t e i = record t {
    entities = remove i t.entities;
    index = erase nat_same e t.index;
    by_pk = drop_pk (pk_key mem (t.cells i).entity (t.cells i).meta) i t.by_pk;
  }

  unfoldable pub detach : (ℕ → E) → Tracker E S → ℕ → Tracker E S
  unfolding detach_cell
  detach mem t e = elim (lookup nat_same e t.index) [ none ↦ t | some i ↦ detach_cell mem t e i ]

  abbrev edit : Tracker E S → ℕ → TrackedEntity E S → Tracker E S
  edit t i te = record t { cells = update t.cells i te }

  unfoldable pub delete_cell : (ℕ → E) → Tracker E S → ℕ → ℕ → Tracker E S
  delete_cell mem t e i =
      if is_added (t.cells i).state && not (t.cells i).flushed
      then detach mem t e
      else edit t i
          (record (t.cells i) { state = EntityState.deleted; ever_dirty = true; flushed = false })

  -- `MarkDeleted`; `none` is `ErrEntityNotTracked`.
  unfoldable pub mark_deleted : (ℕ → E) → Tracker E S → ℕ → Option (Tracker E S)
  unfolding delete_cell
  mark_deleted mem t e = elim (lookup nat_same e t.index) [
    | none ↦ none
    | some i ↦ some (delete_cell mem t e i)
  ]

  unfoldable pub mark_hard_deleted : Tracker E S → ℕ → Option (Tracker E S)
  mark_hard_deleted t e = elim (lookup nat_same e t.index) [
    | none ↦ none
    | some i ↦ some (
        edit t i (record (t.cells i) {
          state = EntityState.deleted;
          hard_delete = true;
          ever_dirty = true;
          flushed = false;
        }))
  ]

  -- `countUnusedTracked`
  unfoldable pub count_unused : (ℕ → TrackedEntity E S) → List ℕ → ℕ
  count_unused cells [] = 0
  count_unused cells (i ∷ is) =
      let n = count_unused cells is in
      if (cells i).loaded && not (cells i).ever_dirty then suc n else n
