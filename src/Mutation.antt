-- ===== src/Mutation.antt =====
-- mutation.go: `applyPendingChanges`, which writes the pending changes of a tracker to a database,
-- here with the SQLite dialect. The driver, and the accessors that are generated for a model, are
-- parameters.
pub mod Flushed
pub mod Keeps
pub mod Notices
use drel.Base.{
  ℕ, Bool, true, false, not, ◌&&◌, ◌||◌, Option, none, some, [], ◌∷◌, ◌++◌, List, Text, codes, ◌==◌,
  if◌then◌else◌, same_text,
}
use drel.Ast.{Value}
use drel.Dialect.Builder.{Result, ColumnValue, Sql}
use drel.Dialect.Sqlite.Write.{
  build_insert, build_update, build_delete, build_soft_delete, build_delete_versioned,
  build_soft_delete_versioned, build_update_versioned,
}
use drel.Predicate.{Splitter, key_values_of}
use drel.Tracker.Cells.{KeyStrategy, Meta, TrackedEntity, Tracker, update}
use drel.Tracker.Flush.{detect_changes, get_pending_changes, mark_flushed}

pub data Failure (X : Type 0) : Type 0 where
  concurrency_conflict zero_key no_rows_affected panic : Failure X
  driver_error : X → Failure X

-- The fields of `ModelMetaBase` that only a flush reads; a scan changes the entity, and may fail.
pub record Fields (E R X : Type 0) : Type 0 where
  pub pk_columns : List Text
  pub key_values : Option Splitter
  pub key : E → Value
  pub insert_columns : E → List Text × List Value
  pub scan_returning : Option (E → R → E × Option X)
  pub scan_generated : Option (E → R → E × Option X)
  pub has_soft_delete : Bool
  pub has_versioned : Bool
  pub has_audit : Bool
  pub version_value : Option (E → ℕ)
  pub set_version : Option (E → ℕ → E)
  pub audit_set_create : Option (E → Text → E)
  pub audit_set_update : Option (E → Text → E)

pub data Reply (X A : Type 0) : Type 0 where
  ok : A → Reply X A
  error : X → Reply X A

-- `queryRowInternal`, `execInternal` with the number of rows, and the scans of a row into ignored
-- values, into a version and into a key.
pub record Driver (D R X : Type 0) : Type 0 where
  pub query_row : D → Result → D × R
  pub exec : D → Result → D × Reply X ℕ
  pub scan_ignored : R → Option X
  pub scan_version : R → Reply X ℕ
  pub scan_key : R → Option X
  pub is_no_rows : X → Bool

pub record FlushState (D E : Type 0) : Type 0 where
  pub db : D
  pub mem : ℕ → E

-- A step of a flush: the new state, and the failure that ends the flush.
abbrev pub Action : Type 0 → Type 0 → Type 0 → Type 0
Action D E X = FlushState D E → FlushState D E × Option (Failure X)

abbrev pub app_assigned : KeyStrategy → Bool
app_assigned KeyStrategy.app_assigned = true
app_assigned KeyStrategy.auto_increment = false

abbrev pub stamps : List Text
stamps = codes "created_at" ∷ codes "updated_at" ∷ []

abbrev is_audit_column : Text → Bool
is_audit_column c = same_text c (codes "created_by") || same_text c (codes "updated_by")

abbrev cons_change : ColumnValue → Option (List ColumnValue) → Option (List ColumnValue)
cons_change cv none = none
cons_change cv (some cvs) = some (cv ∷ cvs)

-- The columns of an attached entity, without the audit columns; `none` is an index out of range.
unfoldable pub user_changes : List Text → List Value → Option (List ColumnValue)
user_changes [] vs = some []
user_changes (c ∷ cs) [] = let rest = user_changes cs [] in if is_audit_column c then rest else none
user_changes (c ∷ cs) (v ∷ vs) =
    let rest = user_changes cs vs in
    if is_audit_column c then rest else cons_change (record { column = c; value = v }) rest

unfoldable pub audited : Bool → Text → List ColumnValue → List ColumnValue
audited has_audit actor changes =
    changes
    ++ record { column = codes "updated_at"; value = Value.raw_expr (codes "CURRENT_TIMESTAMP") }
      ∷ (if has_audit
          then record { column = codes "updated_by"; value = Value.text actor } ∷ []
          else [])

-- The end of a flush: the written entities are marked, or nothing is.
unfoldable pub conclude :
    {D E S X : Type 0}
    → Tracker E S
    → List ℕ
    → FlushState D E
    → Option (Failure X)
    → (Tracker E S × FlushState D E) × Reply (Failure X) (List ℕ)
conclude t ids later (some f) = ((t, later), error f)
conclude t ids later none = ((mark_flushed ids t, later), ok ids)

module _ {D E S R X : Type 0} (driver : Driver D R X) (fields : Meta E S → Fields E R X)
    (actor : Text) where
  unfoldable pub stop : Failure X → Action D E X
  stop f st = (st, some f)

  unfoldable pub set_entity : ℕ → E → FlushState D E → FlushState D E
  set_entity p e st = record st { mem = update st.mem p e }

  -- `exec.queryRowInternal`, and what is done with the row.
  unfoldable pub with_row : Sql → (R → Action D E X) → Action D E X
  unfolding stop
  with_row none f st = stop panic st
  with_row (some q) f st = let (db, row) = driver.query_row st.db q in f row (record st { db = db })

  unfoldable pub with_count : Sql → (ℕ → Option (Failure X)) → Action D E X
  unfolding stop
  with_count none f st = stop panic st
  with_count (some q) f st =
      let (db, reply) = driver.exec st.db q in
      (record st { db = db }, elim reply [ ok n ↦ f n | error x ↦ some (driver_error x) ])

  -- `scan(te.entity, row)`, or a scan into ignored values; then version 1.
  unfoldable pub scan_inserted :
      TrackedEntity E S → Option (E → R → E × Option X) → R → Action D E X
  unfolding set_entity
  scan_inserted te scan row st =
      let scanned : E × Option X = elim scan [
        | some f ↦ f (st.mem te.entity) row
        | none ↦ (st.mem te.entity, driver.scan_ignored row)
      ] in
      let e = scanned.0 in
      elim (scanned.1) [
        | some x ↦ (set_entity te.entity e st, some (driver_error x))
        | none ↦ (
          set_entity te.entity
              (elim (fields te.meta).set_version [
                | some set ↦ if (fields te.meta).has_versioned then set e 1 else e
                | none ↦ e
              ])
              st,
          none,
        )
      ]

  unfoldable pub stamped_create : TrackedEntity E S → E → E
  stamped_create te e = elim (fields te.meta).audit_set_create [
    | some set ↦ if (fields te.meta).has_audit then set e actor else e
    | none ↦ e
  ]

  unfoldable pub forgotten_key : TrackedEntity E S → E → Bool
  forgotten_key te e = elim te.meta.key_is_zero [
    | some is_zero ↦ app_assigned te.meta.key_strategy && is_zero e
    | none ↦ false
  ]

  unfoldable pub split_key : TrackedEntity E S → E → List Value
  split_key te e = key_values_of (fields te.meta).key_values ((fields te.meta).key e)

  unfoldable pub insert_one : TrackedEntity E S → Action D E X
  unfolding stamped_create forgotten_key split_key with_row scan_inserted set_entity stop
  insert_one te start =
      let f = fields te.meta in
      let e = stamped_create te (start.mem te.entity) in
      let st = set_entity te.entity e start in
      let columns = (f.insert_columns e).0 in
      let values = (f.insert_columns e).1 in
      if forgotten_key te e
      then stop zero_key st
      else (if app_assigned te.meta.key_strategy
          then with_row
              (build_insert te.meta.table (f.pk_columns ++ columns) (split_key te e ++ values)
                stamps)
              (scan_inserted te f.scan_generated) st
          else with_row (build_insert te.meta.table columns values (f.pk_columns ++ stamps))
              (scan_inserted te f.scan_returning) st)

  unfoldable pub stamped_update : TrackedEntity E S → E → E
  stamped_update te e = elim (fields te.meta).audit_set_update [
    | some set ↦ if (fields te.meta).has_audit then set e actor else e
    | none ↦ e
  ]

  -- The changes of a modified entity; `none` is a panic, from a nil `Diff` or one without a
  -- snapshot too.
  unfoldable pub changes_of : TrackedEntity E S → E → Option (List ColumnValue)
  changes_of te e =
      if te.force_update
      then user_changes ((fields te.meta).insert_columns e).0 ((fields te.meta).insert_columns e).1
      else (elim te.meta.diff [
        | none ↦ none
        | some diff ↦ elim te.snapshot [ none ↦ none | some snap ↦ some (diff e snap) ]
      ])

  unfoldable pub conflict_or : X → Failure X
  conflict_or x = if driver.is_no_rows x then concurrency_conflict else driver_error x

  unfoldable pub new_version : TrackedEntity E S → R → Action D E X
  unfolding conflict_or set_entity stop
  new_version te row st = elim (driver.scan_version row) [
    | error x ↦ stop (conflict_or x) st
    | ok v ↦ elim (fields te.meta).set_version [
      | none ↦ stop panic st
      | some set ↦ (set_entity te.entity (set (st.mem te.entity) v) st, none)
    ]
  ]

  unfoldable pub some_affected : ℕ → Option (Failure X)
  some_affected n = if n == 0 then some no_rows_affected else none

  unfoldable pub version_of : TrackedEntity E S → E → Option ℕ
  version_of te e = elim (fields te.meta).version_value [
    | none ↦ none
    | some version ↦ if (fields te.meta).has_versioned then some (version e) else none
  ]

  unfoldable pub write_changes : TrackedEntity E S → List ColumnValue → Action D E X
  unfolding version_of split_key with_row with_count new_version some_affected
  write_changes te changes st =
      let f = fields te.meta in
      let e = st.mem te.entity in
      elim (version_of te e) [
        | some current ↦
            with_row
              (build_update_versioned te.meta.table changes f.pk_columns (split_key te e)
                (codes "version") current)
              (new_version te) st
        | none ↦
            with_count (build_update te.meta.table changes f.pk_columns (split_key te e))
              some_affected st
      ]

  unfoldable pub update_one : TrackedEntity E S → Action D E X
  unfolding stamped_update changes_of write_changes set_entity stop
  update_one te start =
      let e = stamped_update te (start.mem te.entity) in
      let st = set_entity te.entity e start in
      elim (changes_of te e) [
        | none ↦ stop panic st
        | some changes ↦ elim changes [
          | [] ↦ (st, none)
          | c ∷ cs ↦ write_changes te (audited (fields te.meta).has_audit actor (c ∷ cs)) st
        ]
      ]

  -- `execVersionedDelete`
  unfoldable pub deleted_row : R → Action D E X
  unfolding conflict_or stop
  deleted_row row st = elim (driver.scan_key row) [
    | none ↦ (st, none)
    | some x ↦ stop (conflict_or x) st
  ]

  unfoldable pub delete_one : TrackedEntity E S → Action D E X
  unfolding version_of split_key with_row with_count deleted_row
  delete_one te st =
      let f = fields te.meta in
      let e = st.mem te.entity in
      let soft = f.has_soft_delete && not te.hard_delete in
      elim (version_of te e) [
        | some current ↦
            with_row
              (if soft
                then build_soft_delete_versioned te.meta.table f.pk_columns (split_key te e)
                    (codes "version") current
                else build_delete_versioned te.meta.table f.pk_columns (split_key te e)
                    (codes "version") current)
              deleted_row st
        | none ↦
            with_count
              (if soft
                then build_soft_delete te.meta.table f.pk_columns (split_key te e)
                else build_delete te.meta.table f.pk_columns (split_key te e))
              (λ n. none) st
      ]

  -- The loops return at the first failure.
  unfoldable pub each_pending :
      (TrackedEntity E S → Action D E X) → (ℕ → TrackedEntity E S) → List ℕ → Action D E X
  each_pending act cells [] st = (st, none)
  each_pending act cells (i ∷ is) st =
      let (later, err) = act (cells i) st in
      elim err [ some f ↦ (later, some f) | none ↦ each_pending act cells is later ]

  unfoldable pub and_then : Action D E X → Action D E X → Action D E X
  and_then first second st =
      let (later, err) = first st in elim err [ some f ↦ (later, some f) | none ↦ second later ]

  -- The tracker, the state, and the flushed entities or the failure.
  unfoldable pub apply_pending_changes :
      Tracker E S → FlushState D E → (Tracker E S × FlushState D E) × Reply (Failure X) (List ℕ)
  unfolding conclude each_pending and_then insert_one update_one delete_one
  apply_pending_changes tracker st =
      let t = detect_changes st.mem tracker in
      let pc = get_pending_changes t in
      let ids = pc.adds ++ (pc.updates ++ pc.deletes) in
      let r =
        and_then (each_pending insert_one t.cells pc.adds)
          (and_then (each_pending update_one t.cells pc.updates)
            (each_pending delete_one t.cells pc.deletes))
          st in
      conclude t ids r.0 r.1
