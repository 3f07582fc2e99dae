-- ===== src/Tracker/Savepoint.antt =====
-- `save` and `restore`.
use drel.Base.{ℕ, List, [], ◌∷◌}
use drel.Base.Assoc.{insert}
use drel.Tracker.Cells.{TrackedEntity, Tracker, nat_same, update, index_pk, pk_key}

-- `trackerState`: the order of the entities and a copy of their cells.
pub record TrackerState (E S : Type 0) : Type 0 where
  pub entities : List ℕ
  pub states : ℕ → TrackedEntity E S

module _ {E S : Type 0} where
  unfoldable pub save : Tracker E S → TrackerState E S
  save t = record { entities = t.entities; states = t.cells }

  -- The loop of `restore`: the cell is copied back and both maps are made anew.
  unfoldable pub restore_loop : (ℕ → E) → TrackerState E S → List ℕ → Tracker E S → Tracker E S
  restore_loop mem st [] t = t
  restore_loop mem st (i ∷ is) t =
      let te = st.states i in
      restore_loop mem st is (record t {
        cells = update t.cells i te;
        index = insert nat_same te.entity i t.index;
        by_pk = index_pk (pk_key mem te.entity te.meta) i t.by_pk;
      })

  unfoldable pub restore : (ℕ → E) → Tracker E S → TrackerState E S → Tracker E S
  unfolding restore_loop
  restore mem t st =
      restore_loop mem st st.entities (record t { entities = st.entities; index = []; by_pk = [] })
