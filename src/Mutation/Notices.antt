-- ===== src/Mutation/Notices.antt =====
-- A flush that succeeds swallowed no failure of a statement.
use drel.Base.{
  ℕ, ◌≡◌, refl, sym, ◌∙◌, ap, Bool, false, Option, none, some, [], ◌∷◌, ◌++◌, List, Text, arith,
  map, Bool-cases, Option-cases, inl, inr, ◌⊎◌,
}
use drel.Dialect.Builder.{Result, ColumnValue, Sql}
use drel.Tracker.Cells.{Meta, TrackedEntity, Tracker}
use drel.Tracker.Flush.{detect_changes, get_pending_changes}
use drel.Mutation.{
  Failure, Fields, Driver, Reply, ok, error, FlushState, Action, apply_pending_changes, stop,
  set_entity, with_row, with_count, scan_inserted, insert_one, update_one, delete_one, audited,
  stamped_create, stamped_update, forgotten_key, app_assigned, new_version, write_changes,
  version_of, changes_of, deleted_row,
}
use drel.Mutation.Flushed.{run, statements, failure_of, apply_pending_changes_lem}

Reply-cases : {X A : Type 0} (r : Reply X A) → ((a : A) × (r ≡ ok a)) ⊎ ((x : X) × (r ≡ error x))
Reply-cases (ok a) = inl (a, refl)
Reply-cases (error x) = inr (x, refl)

-- `failures` counts the statements of a database that failed, and a row `holds` the failure of its
-- statement, which each of its scans returns.
module _ {D E S R X : Type 0} (driver : Driver D R X) (fields : Meta E S → Fields E R X)
    (actor : Text) (failures : D → ℕ) (holds : R → Bool)
    (exec_counts : (d : D) (q : Result) (n : ℕ)
      → (driver.exec d q).1 ≡ ok n
      → failures (driver.exec d q).0 ≡ failures d)
    (row_counts : (d : D) (q : Result)
      → holds (driver.query_row d q).1 ≡ false
      → failures (driver.query_row d q).0 ≡ failures d)
    (ignored_reports : (r : R) → driver.scan_ignored r ≡ none → holds r ≡ false)
    (version_reports : (r : R) (v : ℕ) → driver.scan_version r ≡ ok v → holds r ≡ false)
    (key_reports : (r : R) → driver.scan_key r ≡ none → holds r ≡ false)
    (returning_reports : (m : Meta E S) (f : E → R → E × Option X)
      → ((fields m).scan_returning ≡ some f) ⊎ ((fields m).scan_generated ≡ some f)
      → (e : E) (r : R) → (f e r).1 ≡ none
      → holds r ≡ false) where
  abbrev Notices : Action D E X → Type 0
  Notices act = (st : FlushState D E) → (act st).1 ≡ none → failures (act st).0.db ≡ failures st.db

  -- What is done with a row: without a failure the row holds none, and the database is left alone.
  abbrev Reads : (R → Action D E X) → Type 0
  Reads f =
      (row : R) (st : FlushState D E)
      → (f row st).1 ≡ none
      → (holds row ≡ false) × ((f row st).0.db ≡ st.db)

  with_row-Notices :
      (q : Sql) (f : R → Action D E X) → Reads f → Notices (with_row driver fields actor q f)
  unfolding with_row stop
  with_row-Notices none f h st e = absurd (ground (arith, e))
  with_row-Notices (some q) f h st e =
      let (fine, kept) =
        h (driver.query_row st.db q).1 (record st { db = (driver.query_row st.db q).0 }) e in
      ap failures kept ∙ row_counts st.db q fine

  with_count-Notices :
      (q : Sql) (f : ℕ → Option (Failure X)) → Notices (with_count driver fields actor q f)
  unfolding with_count stop
  with_count-Notices none f st = λ e. absurd (ground (arith, e))
  with_count-Notices (some q) f st = elim (Reply-cases (driver.exec st.db q).1) [
    | inl (n, k) ↦ λ e. exec_counts st.db q n k
    | inr (x, k) ↦ rw (with_count, k) (λ e. absurd (ground (arith, e)))
  ]

  deleted_row-Reads : Reads (deleted_row driver fields actor)
  unfolding deleted_row stop
  deleted_row-Reads row st = elim (Option-cases (driver.scan_key row)) [
    | inl k ↦ rw (deleted_row, k) (λ e. (key_reports row k, refl))
    | inr (x, k) ↦ rw (deleted_row, k) (λ e. absurd (ground (arith, e)))
  ]

  new_version-Reads : (te : TrackedEntity E S) → Reads (new_version driver fields actor te)
  unfolding new_version set_entity stop
  new_version-Reads te row st = elim (Reply-cases (driver.scan_version row)) [
    | inr (x, k) ↦ rw (new_version, k) (λ e. absurd (ground (arith, e)))
    | inl (v, k) ↦ elim (Option-cases (fields te.meta).set_version) [
      | inl n ↦ rw (new_version, k, n) (λ e. absurd (ground (arith, e)))
      | inr (set, n) ↦ rw (new_version, k, n) (λ e. (version_reports row v k, refl))
    ]
  ]

  scan_inserted-Reads :
      (te : TrackedEntity E S) (scan : Option (E → R → E × Option X))
      → ((f : E → R → E × Option X)
          → scan ≡ some f
          → (e : E) (r : R) → (f e r).1 ≡ none
          → holds r ≡ false)
      → Reads (scan_inserted driver fields actor te scan)
  unfolding scan_inserted set_entity
  scan_inserted-Reads te none h row st = elim (Option-cases (driver.scan_ignored row)) [
    | inl k ↦ rw (scan_inserted, k) (λ e. (ignored_reports row k, refl))
    | inr (x, k) ↦ rw (scan_inserted, k) (λ e. absurd (ground (arith, e)))
  ]
  scan_inserted-Reads te (some f) h row st = elim (Option-cases (f (st.mem te.entity) row).1) [
    | inl k ↦ rw (scan_inserted, k) (λ e. (h f refl (st.mem te.entity) row k, refl))
    | inr (x, k) ↦ rw (scan_inserted, k) (λ e. absurd (ground (arith, e)))
  ]

  insert_one-Notices : (te : TrackedEntity E S) → Notices (insert_one driver fields actor te)
  unfolding insert_one set_entity stop
  insert_one-Notices te st =
      elim (Bool-cases (
        forgotten_key driver fields actor te
          (stamped_create driver fields actor te (st.mem te.entity)))) [
            | inl k ↦ rw (insert_one, k) (λ e. absurd (ground (arith, e)))
            | inr k ↦ elim (Bool-cases (app_assigned te.meta.key_strategy)) [
              | inl a ↦
                  rw (insert_one, k, a)
                    (with_row-Notices _ _
                      (scan_inserted-Reads te (fields te.meta).scan_generated
                        (λ f s. returning_reports te.meta f (inr s)))
                      _)
              | inr a ↦
                  rw (insert_one, k, a)
                    (with_row-Notices _ _
                      (scan_inserted-Reads te (fields te.meta).scan_returning
                        (λ f s. returning_reports te.meta f (inl s)))
                      _)
            ]
          ]

  write_changes-Notices :
      (te : TrackedEntity E S) (changes : List ColumnValue)
      → Notices (write_changes driver fields actor te changes)
  unfolding write_changes
  write_changes-Notices te changes st =
      elim (Option-cases (version_of driver fields actor te (st.mem te.entity))) [
        | inl k ↦ rw (write_changes, k) (with_count-Notices _ _ st)
        | inr (v, k) ↦ rw (write_changes, k) (with_row-Notices _ _ (new_version-Reads te) st)
      ]

  update_one-Notices : (te : TrackedEntity E S) → Notices (update_one driver fields actor te)
  unfolding update_one set_entity stop
  update_one-Notices te st =
      elim (Option-cases (
        changes_of driver fields actor te
          (stamped_update driver fields actor te (st.mem te.entity)))) [
            | inl k ↦ rw (update_one, k) (λ e. absurd (ground (arith, e)))
            | inr ([], k) ↦ rw (update_one, k) (λ e. refl)
            | inr (c ∷ cs, k) ↦
                rw (update_one, k)
                  (write_changes-Notices te (audited (fields te.meta).has_audit actor (c ∷ cs)) (
                    set_entity driver fields actor te.entity
                      (stamped_update driver fields actor te (st.mem te.entity)) st))
          ]

  delete_one-Notices : (te : TrackedEntity E S) → Notices (delete_one driver fields actor te)
  unfolding delete_one
  delete_one-Notices te st =
      elim (Option-cases (version_of driver fields actor te (st.mem te.entity))) [
        | inl k ↦ rw (delete_one, k) (with_count-Notices _ _ st)
        | inr (v, k) ↦ rw (delete_one, k) (with_row-Notices _ _ deleted_row-Reads st)
      ]

  AllNotice : List (Action D E X) → Type 0
  AllNotice [] = Unit {0}
  AllNotice (act ∷ acts) = Notices act × AllNotice acts

  AllNotice-++ :
      (first second : List (Action D E X))
      → AllNotice first
      → AllNotice second
      → AllNotice (first ++ second)
  unfolding AllNotice
  AllNotice-++ [] second h k = k
  AllNotice-++ (act ∷ first) second h k = (h.0, AllNotice-++ first second h.1 k)

  AllNotice-map :
      (act : TrackedEntity E S → Action D E X) (cells : ℕ → TrackedEntity E S)
      → ((te : TrackedEntity E S) → Notices (act te))
      → (is : List ℕ) → AllNotice (map (λ i. act (cells i)) is)
  unfolding AllNotice
  AllNotice-map act cells h [] = tt
  AllNotice-map act cells h (i ∷ is) = (h (cells i), AllNotice-map act cells h is)

  run-Notices : (acts : List (Action D E X)) → AllNotice acts → Notices (run acts)
  unfolding run AllNotice
  run-Notices [] h st = λ e. refl
  run-Notices (act ∷ acts) h st = elim (Option-cases (act st).1) [
    | inl k ↦ rw (run, k) (λ e. run-Notices acts h.1 (act st).0 e ∙ h.0 st k)
    | inr (f, k) ↦ rw (run, k) (λ e. absurd (ground (arith, e)))
  ]

  statements-AllNotice : (t : Tracker E S) → AllNotice (statements driver fields actor t)
  statements-AllNotice t =
      let pc = get_pending_changes t in
      AllNotice-++ _ _
        (AllNotice-map (insert_one driver fields actor) t.cells insert_one-Notices pc.adds)
        (AllNotice-++ _ _
          (AllNotice-map (update_one driver fields actor) t.cells update_one-Notices pc.updates)
          (AllNotice-map (delete_one driver fields actor) t.cells delete_one-Notices pc.deletes))

  -- For a driver that reports the failure of an execution in its answer, and that of a query in each scan
  -- of its row, and for scans of a model that do so too: when a flush succeeds, none of its statements
  -- has failed.
  pub no_failure_swallowed :
      (tracker : Tracker E S) (st : FlushState D E) (ids : List ℕ)
      → (apply_pending_changes driver fields actor tracker st).1 ≡ ok ids
      → failures (apply_pending_changes driver fields actor tracker st).0.1.db ≡ failures st.db
  no_failure_swallowed tracker st ids success =
      let t = detect_changes st.mem tracker in
      let (ended, said, flushed) = apply_pending_changes_lem driver fields actor tracker st in
      let fine : (run (statements driver fields actor t) st).1 ≡ none =
        sym said ∙ ap failure_of success in
      ap (λ s. failures s.db) ended
      ∙ run-Notices (statements driver fields actor t) (statements-AllNotice t) st fine
