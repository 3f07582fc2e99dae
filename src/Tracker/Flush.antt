-- ===== src/Tracker/Flush.antt =====
-- `DetectChanges`, `GetPendingChanges`, `resetFlushed` and `PostCommit`.
use drel.Base.{ℕ, Bool, true, false, ◌&&◌, Option, none, some, List, [], ◌∷◌, ◌++◌, if◌then◌else◌}
use drel.Base.Assoc.{erase}
use drel.Dialect.Builder.{ColumnValue}
use drel.Tracker.Keys.{Key}
use drel.Tracker.Cells.{
  EntityState, TrackedEntity, Tracker, nat_same, update, is_unchanged, is_deleted, index_pk,
  drop_pk, pk_key, snapshot_with,
}

pub record PendingChanges : Type 0 where
  pub adds : List ℕ
  pub updates : List ℕ
  pub deletes : List ℕ

abbrev pub no_changes : PendingChanges
no_changes = record { adds = []; updates = []; deletes = [] }

-- One round of `GetPendingChanges` in front of the later ones.
unfoldable pub sort_change : EntityState → ℕ → PendingChanges → PendingChanges
sort_change EntityState.unchanged i pc = pc
sort_change EntityState.added i pc = record pc { adds = i ∷ pc.adds }
sort_change EntityState.modified i pc = record pc { updates = i ∷ pc.updates }
sort_change EntityState.deleted i pc = record pc { deletes = i ∷ pc.deletes }

-- A deleted entity leaves both maps; an inserted one enters the map by key.
unfoldable pub commit_maps :
    EntityState → Option Key → ℕ → ℕ → List (ℕ × ℕ) × List (Key × ℕ) → List (ℕ × ℕ) × List (Key × ℕ)
commit_maps EntityState.added k e i maps = (maps.0, index_pk k i maps.1)
commit_maps EntityState.deleted k e i maps = (erase nat_same e maps.0, drop_pk k i maps.1)
commit_maps _ k e i maps = maps

module _ {E S : Type 0} where
  -- The loops over `entities` that change cells: `f` on the cell of each.
  unfoldable pub each_cell :
      (TrackedEntity E S → TrackedEntity E S)
      → List ℕ
      → (ℕ → TrackedEntity E S)
      → ℕ
      → TrackedEntity E S
  each_cell f [] cells = cells
  each_cell f (i ∷ is) cells = each_cell f is (update cells i (f (cells i)))

  has_changes : Option (E → S → List ColumnValue) → Option S → E → Bool
  has_changes none snap e = false
  has_changes (some diff) none e = false
  has_changes (some diff) (some snap) e = elim (diff e snap) [ [] ↦ false | c ∷ cs ↦ true ]

  unfoldable pub detect_cell : (ℕ → E) → TrackedEntity E S → TrackedEntity E S
  unfolding has_changes
  detect_cell mem te =
      if is_unchanged te.state && has_changes te.meta.diff te.snapshot (mem te.entity)
      then record te { state = EntityState.modified; ever_dirty = true }
      else te

  unfoldable pub detect_changes : (ℕ → E) → Tracker E S → Tracker E S
  unfolding each_cell detect_cell
  detect_changes mem t = record t { cells = each_cell (detect_cell mem) t.entities t.cells }

  unfoldable pub reset_flushed : Tracker E S → Tracker E S
  unfolding each_cell
  reset_flushed t = record t {
    cells = each_cell (λ te. record te { flushed = false }) t.entities t.cells;
  }

  unfoldable pub pending_of : (ℕ → TrackedEntity E S) → List ℕ → PendingChanges
  unfolding sort_change
  pending_of cells [] = no_changes
  pending_of cells (i ∷ is) =
      let pc = pending_of cells is in
      if (cells i).flushed then pc else sort_change (cells i).state i pc

  unfoldable pub get_pending_changes : Tracker E S → PendingChanges
  unfolding pending_of
  get_pending_changes t = pending_of t.cells t.entities

  -- A new snapshot after a commit, for metas that have snapshots.
  unfoldable pub snapshot_of : (ℕ → E) → TrackedEntity E S → Option S
  snapshot_of mem te = snapshot_with te.meta.snapshot (mem te.entity)

  -- A cell that stays tracked after a commit.
  unfoldable pub commit_cell : EntityState → (ℕ → E) → TrackedEntity E S → TrackedEntity E S
  unfolding snapshot_of
  commit_cell EntityState.unchanged mem te = record te { flushed = false }
  commit_cell EntityState.deleted mem te = te
  commit_cell _ mem te = record te {
    snapshot = snapshot_of mem te;
    state = EntityState.unchanged;
    ever_dirty = false;
    force_update = false;
    flushed = false;
    loaded = true;
  }

  -- The loop of `PostCommit` over the cells, the two maps and the survivors so far.
  unfoldable pub commit_loop : (ℕ → E) → List ℕ → List ℕ → Tracker E S → Tracker E S
  unfolding commit_cell commit_maps
  commit_loop mem [] surviving t = record t { entities = surviving }
  commit_loop mem (i ∷ is) surviving t =
      let te = t.cells i in
      let maps =
        commit_maps te.state (pk_key mem te.entity te.meta) te.entity i (t.index, t.by_pk) in
      commit_loop mem is (if is_deleted te.state then surviving else surviving ++ i ∷ [])
        (record t {
          cells = update t.cells i (commit_cell te.state mem te);
          index = maps.0;
          by_pk = maps.1;
        })

  unfoldable pub post_commit : (ℕ → E) → Tracker E S → Tracker E S
  unfolding commit_loop
  post_commit mem t = commit_loop mem t.entities [] t

  -- What a flush does to the cells that it wrote: `te.flushed = true`.
  unfoldable pub mark_flushed : List ℕ → Tracker E S → Tracker E S
  unfolding each_cell
  mark_flushed is t = record t { cells = each_cell (λ te. record te { flushed = true }) is t.cells }
