-- ===== src/Mutation/Keeps.antt =====
-- What every statement of a flush keeps of the database, the flush keeps.
use drel.Base.{
  ℕ, ◌≡◌, refl, sym, Bool, true, false, Option, none, some, [], ◌∷◌, ◌++◌, List, Text, arith,
  Option-cases, inl, inr, if◌then◌else◌,
}
use mathlib.Core.Path.{subst}
use drel.Dialect.Builder.{Result, ColumnValue, Sql}
use drel.Tracker.Cells.{Meta, TrackedEntity, Tracker}
use drel.Tracker.Flush.{detect_changes, get_pending_changes}
use drel.Mutation.{
  Failure, Fields, Driver, FlushState, Action, conclude, apply_pending_changes, stop, set_entity,
  with_row, with_count, scan_inserted, insert_one, update_one, delete_one, audited, stamped_create,
  stamped_update, forgotten_key, app_assigned, new_version, write_changes, version_of, changes_of,
  deleted_row, each_pending, and_then,
}

module _ {D E S R X : Type 0} (driver : Driver D R X) (fields : Meta E S → Fields E R X)
    (actor : Text) (Kept : D → Type 0)
    (query_row-Kept : (d : D) (q : Result) → Kept d → Kept (driver.query_row d q).0)
    (exec-Kept : (d : D) (q : Result) → Kept d → Kept (driver.exec d q).0) where
  abbrev Keeps : Action D E X → Type 0
  Keeps act = (st : FlushState D E) → Kept st.db → Kept (act st).0.db

  with_row-Keeps :
      (q : Sql) (f : R → Action D E X)
      → ((row : R) → Keeps (f row))
      → Keeps (with_row driver fields actor q f)
  unfolding with_row stop
  with_row-Keeps none f h st k = k
  with_row-Keeps (some q) f h st k = h _ _ (query_row-Kept st.db q k)

  with_count-Keeps :
      (q : Sql) (f : ℕ → Option (Failure X)) → Keeps (with_count driver fields actor q f)
  unfolding with_count stop
  with_count-Keeps none f st k = k
  with_count-Keeps (some q) f st k = exec-Kept st.db q k

  db-scan_inserted :
      (te : TrackedEntity E S) (scan : Option (E → R → E × Option X)) (row : R)
      (st : FlushState D E)
      → (scan_inserted driver fields actor te scan row st).0.db ≡ st.db
  unfolding scan_inserted set_entity
  db-scan_inserted te scan row st = ground arith

  db-new_version :
      (te : TrackedEntity E S) (row : R) (st : FlushState D E)
      → (new_version driver fields actor te row st).0.db ≡ st.db
  unfolding new_version set_entity stop
  db-new_version te row st = ground arith

  db-deleted_row :
      (row : R) (st : FlushState D E) → (deleted_row driver fields actor row st).0.db ≡ st.db
  unfolding deleted_row stop
  db-deleted_row row st = ground arith

  same_db : (act : Action D E X) → ((st : FlushState D E) → (act st).0.db ≡ st.db) → Keeps act
  same_db act h st k = subst Kept (sym (h st)) k

  if-Keeps :
      (b : Bool) (p q : FlushState D E × Option (Failure X))
      → Kept p.0.db
      → Kept q.0.db
      → Kept (if b then p else q).0.db
  if-Keeps true p q h k = h
  if-Keeps false p q h k = k

  scan_inserted-Keeps :
      (te : TrackedEntity E S) (scan : Option (E → R → E × Option X)) (row : R)
      → Keeps (scan_inserted driver fields actor te scan row)
  scan_inserted-Keeps te scan row =
      same_db (scan_inserted driver fields actor te scan row) (db-scan_inserted te scan row)

  insert_one-Keeps : (te : TrackedEntity E S) → Keeps (insert_one driver fields actor te)
  unfolding insert_one set_entity stop
  insert_one-Keeps te st k =
      if-Keeps
        (forgotten_key driver fields actor te
          (stamped_create driver fields actor te (st.mem te.entity)))
        _ _ k
        (if-Keeps (app_assigned te.meta.key_strategy) _ _
          (with_row-Keeps _ _ (scan_inserted-Keeps te (fields te.meta).scan_generated) _ k)
          (with_row-Keeps _ _ (scan_inserted-Keeps te (fields te.meta).scan_returning) _ k))

  write_changes-Keeps :
      (te : TrackedEntity E S) (changes : List ColumnValue)
      → Keeps (write_changes driver fields actor te changes)
  unfolding write_changes
  write_changes-Keeps te changes st k =
      elim (Option-cases (version_of driver fields actor te (st.mem te.entity))) [
        | inl e ↦ rw (write_changes, e) (with_count-Keeps _ _ st k)
        | inr (v, e) ↦
            rw (write_changes, e)
              (with_row-Keeps _ _
                (λ row. same_db (new_version driver fields actor te row) (db-new_version te row)) st
                k)
      ]

  update_one-Keeps : (te : TrackedEntity E S) → Keeps (update_one driver fields actor te)
  unfolding update_one set_entity stop
  update_one-Keeps te st k =
      elim (Option-cases (
        changes_of driver fields actor te
          (stamped_update driver fields actor te (st.mem te.entity)))) [
            | inl e ↦ rw (update_one, e) k
            | inr ([], e) ↦ rw (update_one, e) k
            | inr (c ∷ cs, e) ↦
                rw (update_one, e)
                  (write_changes-Keeps te (audited (fields te.meta).has_audit actor (c ∷ cs))
                    (set_entity driver fields actor te.entity
                      (stamped_update driver fields actor te (st.mem te.entity)) st)
                    k)
          ]

  delete_one-Keeps : (te : TrackedEntity E S) → Keeps (delete_one driver fields actor te)
  unfolding delete_one
  delete_one-Keeps te st k =
      elim (Option-cases (version_of driver fields actor te (st.mem te.entity))) [
        | inl e ↦ rw (delete_one, e) (with_count-Keeps _ _ st k)
        | inr (v, e) ↦
            rw (delete_one, e)
              (with_row-Keeps _ _
                (λ row. same_db (deleted_row driver fields actor row) (db-deleted_row row)) st k)
      ]

  each_pending-Keeps :
      (act : TrackedEntity E S → Action D E X) (cells : ℕ → TrackedEntity E S)
      → ((te : TrackedEntity E S) → Keeps (act te))
      → (is : List ℕ) → Keeps (each_pending driver fields actor act cells is)
  unfolding each_pending
  each_pending-Keeps act cells h [] st k = k
  each_pending-Keeps act cells h (i ∷ is) st k = elim (Option-cases (act (cells i) st).1) [
    | inl e ↦
        rw (each_pending, e)
          (each_pending-Keeps act cells h is (act (cells i) st).0 (h (cells i) st k))
    | inr (f, e) ↦ rw (each_pending, e) (h (cells i) st k)
  ]

  and_then-Keeps :
      (first second : Action D E X)
      → Keeps first
      → Keeps second
      → Keeps (and_then driver fields actor first second)
  unfolding and_then
  and_then-Keeps first second h g st k = elim (Option-cases (first st).1) [
    | inl e ↦ rw (and_then, e) (g (first st).0 (h st k))
    | inr (f, e) ↦ rw (and_then, e) (h st k)
  ]

  db-conclude :
      (t : Tracker E S) (ids : List ℕ) (later : FlushState D E) (err : Option (Failure X))
      → (conclude t ids later err).0.1 ≡ later
  unfolding conclude
  db-conclude t ids later none = refl
  db-conclude t ids later (some f) = refl

  pub apply_pending_changes-Keeps :
      (tracker : Tracker E S) (st : FlushState D E)
      → Kept st.db
      → Kept (apply_pending_changes driver fields actor tracker st).0.1.db
  unfolding apply_pending_changes
  apply_pending_changes-Keeps tracker st k =
      let t = detect_changes st.mem tracker in
      let pc = get_pending_changes t in
      let inserts =
        each_pending driver fields actor (insert_one driver fields actor) t.cells pc.adds in
      let updates =
        each_pending driver fields actor (update_one driver fields actor) t.cells pc.updates in
      let deletes =
        each_pending driver fields actor (delete_one driver fields actor) t.cells pc.deletes in
      let written =
        and_then-Keeps inserts (and_then driver fields actor updates deletes)
          (each_pending-Keeps (insert_one driver fields actor) t.cells insert_one-Keeps pc.adds)
          (and_then-Keeps updates deletes
            (each_pending-Keeps (update_one driver fields actor) t.cells update_one-Keeps
              pc.updates)
            (each_pending-Keeps (delete_one driver fields actor) t.cells delete_one-Keeps
              pc.deletes))
          st k in
      let r =
        and_then driver fields actor inserts (and_then driver fields actor updates deletes) st in
      subst (λ s. Kept s.db) (sym (db-conclude t (pc.adds ++ (pc.updates ++ pc.deletes)) r.0 r.1))
        written
