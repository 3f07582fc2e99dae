-- ===== src/Tests/Mutation.antt =====
-- A flush at a concrete database, which counts the statements it is sent and refuses the second.
use drel.Base.{
  ℕ, zero, suc, arith, ◌⊎◌, inl, inr, ◌∙◌, ap, sym, ◌≡◌, refl, Bool, true, false, Option, none,
  some, [], ◌∷◌, List, Text, codes, ◌==◌, if◌then◌else◌,
}
use drel.Ast.{Value}
use drel.Dialect.Builder.{ColumnValue, Result}
use drel.Base.Assoc.{lookup}
use drel.Tracker.Keys.{Pk, is_zero_pk}
use drel.Tracker.Cells.{KeyStrategy, Meta, Tracker, KeyConfig, new_tracker, pk_key, add_cell}
use drel.Tracker.Edit.{mark_added, added_cell}
use drel.Tracker.Flush.{detect_changes, get_pending_changes}
use drel.Mutation.{Fields, Driver, FlushState, ok, error, Failure, conclude, apply_pending_changes}
use drel.Mutation.Notices.{no_failure_swallowed}
use drel.Mutation.Flushed.{IsFlushed, failure_of, run, statements, apply_pending_changes_lem}

abbrev pub note_meta : Meta ℕ ℕ
note_meta = record {
  table = codes "notes";
  pk_value = some (λ e. some (Pk.whole e));
  snapshot = some (λ e. e);
  diff =
      some
        (λ e s. if e == s then [] else record { column = codes "n"; value = Value.number e } ∷ []);
  key_strategy = KeyStrategy.auto_increment;
  generate_key = none;
  set_key = none;
  key_is_zero = none;
}

-- The inserted note gets the key that the row holds.
abbrev pub note_fields : Meta ℕ ℕ → Fields ℕ (Option ℕ) Text
note_fields m = record {
  pk_columns = codes "id" ∷ [];
  key_values = none;
  key = λ e. Value.number e;
  insert_columns = λ e. (codes "n" ∷ [], Value.number e ∷ []);
  scan_returning =
      some (λ e r. elim r [ some id ↦ (id, none) | none ↦ (e, some (codes "refused")) ]);
  scan_generated = none;
  has_soft_delete = false;
  has_versioned = false;
  has_audit = false;
  version_value = none;
  set_version = none;
  audit_set_create = none;
  audit_set_update = none;
}

abbrev counting : Driver ℕ (Option ℕ) Text
counting = record {
  query_row = λ d q. (suc d, if d == 0 then some 70 else none);
  exec = λ d q. (suc d, ok 1);
  scan_ignored = λ r. none;
  scan_version = λ r. ok 1;
  scan_key = λ r. none;
  is_no_rows = λ x. false;
}

abbrev pub no_config : Text → Option KeyConfig
no_config t = none

abbrev pub memory : ℕ → ℕ
memory p = 0

abbrev one_note : Tracker ℕ ℕ
one_note = (mark_added no_config 0 memory (new_tracker ℕ ℕ note_meta) 1 note_meta).1

abbrev two_notes : Tracker ℕ ℕ
two_notes = (mark_added no_config 0 memory one_note 2 note_meta).1

abbrev start : FlushState ℕ ℕ
start = record { db = 0; mem = memory }

-- One note is written and gets its key; of two, the second INSERT fails after the first.
written : (apply_pending_changes counting note_fields [] one_note start).1 ≡ ok (0 ∷ [])
unfolding apply_pending_changes conclude mark_added new_tracker detect_changes get_pending_changes
    lookup drel.Base.Assoc.insert add_cell added_cell pk_key is_zero_pk
    drel.Dialect.Sqlite.Write.build_insert drel.Dialect.Builder.◌⊕◌ drel.Dialect.Builder.join
written = refl

refused :
    (apply_pending_changes counting note_fields [] two_notes start).1
    ≡ error (Failure.driver_error (codes "refused"))
unfolding apply_pending_changes conclude mark_added new_tracker detect_changes get_pending_changes
    lookup drel.Base.Assoc.insert add_cell added_cell pk_key is_zero_pk
    drel.Dialect.Sqlite.Write.build_insert drel.Dialect.Builder.◌⊕◌ drel.Dialect.Builder.join
refused = refl

apply_pending_changes_example :
    let ((after, later), reply) = apply_pending_changes counting note_fields [] two_notes start in
    let t = detect_changes memory two_notes in
    let end = run (statements counting note_fields [] t) start in
    (later ≡ end.0) × (failure_of reply ≡ end.1) × IsFlushed t after reply
apply_pending_changes_example = apply_pending_changes_lem counting note_fields [] two_notes start

-- Statements, and those of them that failed: every query after the first one does.
abbrev strict : Driver (ℕ × ℕ) (Option ℕ) Text
strict = record {
  query_row = λ d q. if d.0 == 0 then ((suc d.0, d.1), some 70) else ((suc d.0, suc d.1), none);
  exec = λ d q. ((suc d.0, d.1), ok 1);
  scan_ignored = λ r. elim r [ some id ↦ none | none ↦ some (codes "refused") ];
  scan_version = λ r. elim r [ some id ↦ ok id | none ↦ error (codes "refused") ];
  scan_key = λ r. elim r [ some id ↦ none | none ↦ some (codes "refused") ];
  is_no_rows = λ x. false;
}

abbrev failed_row : Option ℕ → Bool
failed_row none = true
failed_row (some id) = false

strict_row :
    (d : ℕ × ℕ) (q : Result)
    → failed_row (strict.query_row d q).1 ≡ false
    → (strict.query_row d q).0.1 ≡ d.1
strict_row (zero, f) q h = refl
strict_row (suc n, f) q h = absurd (ground (arith, h))

strict_ignored : (r : Option ℕ) → strict.scan_ignored r ≡ none → failed_row r ≡ false
strict_ignored none h = absurd (ground (arith, h))
strict_ignored (some id) h = refl

strict_version : (r : Option ℕ) (v : ℕ) → strict.scan_version r ≡ ok v → failed_row r ≡ false
strict_version none v h = absurd (ground (arith, h))
strict_version (some id) v h = refl

strict_returning :
    (m : Meta ℕ ℕ) (f : ℕ → Option ℕ → ℕ × Option Text)
    → ((note_fields m).scan_returning ≡ some f) ⊎ ((note_fields m).scan_generated ≡ some f)
    → (e : ℕ) (r : Option ℕ) → (f e r).1 ≡ none
    → failed_row r ≡ false
strict_returning m f (inl s) e (some id) h = refl
strict_returning m f (inl s) e none h = absurd (
    let same : (λ e r. elim r [ some id ↦ (id, none) | none ↦ (e, some (codes "refused")) ]) ≡ f =
      cc s in
    let said = ap (λ g. (g e none).1) same in ground (arith, said, h))
strict_returning m f (inr s) e r h = absurd (ground (arith, s))

abbrev strict_start : FlushState (ℕ × ℕ) ℕ
strict_start = record { db = (0, 0); mem = memory }

strictly_written :
    (apply_pending_changes strict note_fields [] one_note strict_start).1 ≡ ok (0 ∷ [])
unfolding apply_pending_changes conclude mark_added new_tracker detect_changes get_pending_changes
    lookup drel.Base.Assoc.insert add_cell added_cell pk_key is_zero_pk
    drel.Dialect.Sqlite.Write.build_insert drel.Dialect.Builder.◌⊕◌ drel.Dialect.Builder.join
strictly_written = refl

no_failure_swallowed_example :
    (apply_pending_changes strict note_fields [] one_note strict_start).0.1.db.1 ≡ 0
no_failure_swallowed_example =
    no_failure_swallowed strict note_fields [] (λ d. d.1) failed_row (λ d q n h. refl) strict_row
      strict_ignored strict_version strict_ignored strict_returning one_note strict_start (0 ∷ [])
      strictly_written
