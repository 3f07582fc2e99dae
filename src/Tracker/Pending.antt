-- ===== src/Tracker/Pending.antt =====
-- `DetectChanges` and `GetPendingChanges`: which entities are written by a flush.
use drel.Base.{ℕ, ◌≡◌, refl, ◌∙◌, true, false, ◌&&◌, not, List, [], ◌∷◌, arith, if◌then◌else◌, keep}
use drel.Base.Ids.{contains, Distinct}
use drel.Tracker.Cells.{TrackedEntity, Tracker, update, is_added, is_modified, is_deleted}
use drel.Tracker.Flush.{
  each_cell, detect_cell, detect_changes, reset_flushed, pending_of, get_pending_changes,
  mark_flushed,
}
use drel.Tracker.Invariant.{Inv, Inv-cells}

module _ {E S : Type 0} where
  -- A loop over distinct cells changes each of them once.
  pub each_cell_lem :
      (f : TrackedEntity E S → TrackedEntity E S) (is : List ℕ) (cells : ℕ → TrackedEntity E S)
      (j : ℕ)
      → Distinct is
      → each_cell f is cells j ≡ (if contains j is then f (cells j) else cells j)
  unfolding each_cell
  each_cell_lem f [] cells j d = refl
  each_cell_lem f (i ∷ is) cells j d =
      each_cell_lem f is (update cells i (f (cells i))) j d.1 ∙ ground (arith, d.0)

  each_cell-entity :
      (f : TrackedEntity E S → TrackedEntity E S)
      → ((te : TrackedEntity E S) → (f te).entity ≡ te.entity)
      → (is : List ℕ) (cells : ℕ → TrackedEntity E S) (j : ℕ)
      → (each_cell f is cells j).entity ≡ (cells j).entity
  unfolding each_cell
  each_cell-entity f same [] cells j = refl
  each_cell-entity f same (i ∷ is) cells j =
      each_cell-entity f same is (update cells i (f (cells i))) j ∙ ground (arith, same (cells i))

  detect_cell-entity :
      (mem : ℕ → E) (te : TrackedEntity E S) → (detect_cell mem te).entity ≡ te.entity
  unfolding detect_cell
  detect_cell-entity mem te = ground arith

  pub detect_changes-Inv : (mem : ℕ → E) (t : Tracker E S) → Inv t → Inv (detect_changes mem t)
  unfolding detect_changes
  detect_changes-Inv mem t v =
      Inv-cells t _ (each_cell-entity (detect_cell mem) (detect_cell-entity mem) t.entities t.cells)
        v

  pub reset_flushed-Inv : (t : Tracker E S) → Inv t → Inv (reset_flushed t)
  unfolding reset_flushed
  reset_flushed-Inv t v =
      Inv-cells t _
        (each_cell-entity (λ te. record te { flushed = false }) (λ te. refl) t.entities t.cells) v

  sorted :
      (cells : ℕ → TrackedEntity E S) (is : List ℕ)
      → ((pending_of cells is).adds
          ≡ keep (λ i. not (cells i).flushed && is_added (cells i).state) is)
        × ((pending_of cells is).updates
            ≡ keep (λ i. not (cells i).flushed && is_modified (cells i).state) is)
        × ((pending_of cells is).deletes
            ≡ keep (λ i. not (cells i).flushed && is_deleted (cells i).state) is)
  unfolding pending_of
  sorted cells [] = (refl, refl, refl)
  sorted cells (i ∷ is) = ground (arith, sorted cells is)

  -- The pending changes are the tracked cells that are not flushed, sorted by their state and in
  -- the order in which they were tracked.
  pub get_pending_changes_lem :
      (t : Tracker E S)
      → ((get_pending_changes t).adds
          ≡ keep (λ i. not (t.cells i).flushed && is_added (t.cells i).state) t.entities)
        × ((get_pending_changes t).updates
            ≡ keep (λ i. not (t.cells i).flushed && is_modified (t.cells i).state) t.entities)
        × ((get_pending_changes t).deletes
            ≡ keep (λ i. not (t.cells i).flushed && is_deleted (t.cells i).state) t.entities)
  unfolding get_pending_changes
  get_pending_changes_lem t = sorted t.cells t.entities

  pub mark_flushed-Inv : (is : List ℕ) (t : Tracker E S) → Inv t → Inv (mark_flushed is t)
  unfolding mark_flushed
  mark_flushed-Inv is t v =
      Inv-cells t _ (each_cell-entity (λ te. record te { flushed = true }) (λ te. refl) is t.cells)
        v
