-- ===== src/Tests/Tracker.antt =====
-- The tracker at concrete inputs: an entity is its id and its quantity.
use drel.Base.{
  ℕ, ◌+◌, ◌≡◌, ◌↔◌, refl, ◌≢◌, Bool, true, false, ◌&&◌, not, ◌||◌, Option, none, some, [], ◌∷◌,
  List, arith, Text, codes, ◌==◌, if◌then◌else◌, keep,
}
use drel.Base.Assoc.{lookup}
use drel.Base.Ids.{contains}
use drel.Ast.{Value}
use drel.Dialect.Builder.{ColumnValue}
use drel.Tracker.Keys.{Pk, is_zero_pk}
use drel.Tracker.Cells.{
  EntityState, KeyStrategy, Meta, KeyConfig, Tracker, nat_same, update, is_added, is_modified,
  is_deleted, pk_key, new_tracker, loaded_cell, add_cell,
}
use drel.Tracker.Edit.{track, mark_added, mark_deleted, attach}
use drel.Tracker.Flush.{get_pending_changes, detect_changes, post_commit, mark_flushed, no_changes}
use drel.Tracker.Savepoint.{save, restore}
use drel.Tracker.Invariant.{Inv, new_tracker-Inv, track-Inv}
use drel.Tracker.Pending.{get_pending_changes_lem, detect_changes-Inv, mark_flushed-Inv}
use drel.Tracker.Identity.{track_same_row, attach_then_track}
use drel.Tracker.Removal.{mark_deleted-mark_added, mark_deleted_lem, flushed_change_lost}
use drel.Tracker.Commit.{post_commit_lem, survives}
use drel.Tracker.Rollback.{restore-save}
use drel.Tracker.History.{Session, Step, Reach, IsValid, Reach-IsValid}

abbrev Line : Type 0
Line = ℕ × ℕ

abbrev line_diff : Line → Line → List ColumnValue
line_diff e s =
    if e.1 == s.1 then [] else record { column = codes "qty"; value = Value.number e.1 } ∷ []

abbrev line_meta : Meta Line Line
line_meta = record {
  table = codes "lines";
  pk_value = some (λ e. some (Pk.whole e.0));
  snapshot = some (λ e. e);
  diff = some line_diff;
  key_strategy = KeyStrategy.auto_increment;
  generate_key = none;
  set_key = none;
  key_is_zero = none;
}

abbrev no_config : Text → Option KeyConfig
no_config t = none

-- Pointers 1 and 2 are two scans of row 5; pointer 3 is a new line.
abbrev memory : ℕ → Line
memory p = if p == 3 then (0, 1) else (5, 10)

abbrev empty : Tracker Line Line
empty = new_tracker Line Line line_meta

abbrev one_line : Tracker Line Line
one_line = (track memory empty 1 (some (5, 10)) line_meta).0

-- The quantity of row 5 is written after its load.
abbrev changed : ℕ → Line
changed = update memory 1 (5, 11)

abbrev again : ℕ → Line
again = update memory 1 (5, 12)

abbrev detected : Tracker Line Line
detected = detect_changes changed one_line

abbrev flushed_once : Tracker Line Line
flushed_once = mark_flushed (0 ∷ []) detected

empty_index : (e : ℕ) → lookup nat_same e empty.index ≡ none
unfolding new_tracker lookup
empty_index e = refl

row_key :
    (e : ℕ)
    → e ≢ 3
    → pk_key memory e line_meta ≡ some (record { table = codes "lines"; pk = Pk.whole 5 })
unfolding pk_key is_zero_pk
row_key e h = ground arith

one_line-Inv : Inv one_line
one_line-Inv = track-Inv memory empty 1 (some (5, 10)) line_meta (new_tracker-Inv line_meta)

flushed_once-Inv : Inv flushed_once
flushed_once-Inv =
    mark_flushed-Inv (0 ∷ []) detected (detect_changes-Inv changed one_line one_line-Inv)

track_same_row_example :
    track memory one_line 2 (some (5, 10)) line_meta ≡ track memory empty 1 (some (5, 10)) line_meta
track_same_row_example =
    track_same_row memory empty 1 2 (some (5, 10)) (some (5, 10)) line_meta line_meta _
      (empty_index 1) (empty_index 2) (omega arith) (row_key 1 (omega arith))
      (row_key 2 (omega arith))

attach_then_track_example :
    let later =
      track memory (attach memory empty 1 EntityState.modified line_meta) 2 none line_meta in
    (later.1 ≡ 2)
    × (lookup nat_same 1 later.0.index ≡ some 0)
    × (lookup nat_same 2 later.0.index ≡ some 1)
unfolding new_tracker lookup
attach_then_track_example =
    attach_then_track memory empty 1 2 EntityState.modified none line_meta line_meta _ refl refl
      (omega arith) (row_key 1 (omega arith)) (row_key 2 (omega arith)) refl

mark_deleted-mark_added_example :
    let (memory', u) = mark_added no_config 0 memory one_line 3 line_meta in
    (w : Tracker Line Line) × (mark_deleted memory' u 3 ≡ some w)
    × (w.entities ≡ one_line.entities)
    × (lookup nat_same 3 w.index ≡ none)
    × (get_pending_changes w ≡ get_pending_changes one_line)
unfolding track add_cell lookup new_tracker pk_key is_zero_pk drel.Base.Assoc.insert loaded_cell
mark_deleted-mark_added_example =
    mark_deleted-mark_added no_config 0 memory one_line 3 line_meta one_line-Inv refl

-- A loaded line that is removed is among the deletions.
mark_deleted_example :
    (u : Tracker Line Line) × (mark_deleted memory one_line 1 ≡ some u)
    × (contains 0 (get_pending_changes u).deletes ≡ true)
unfolding track add_cell lookup new_tracker pk_key is_zero_pk drel.Base.Assoc.insert loaded_cell
mark_deleted_example = (mark_deleted_lem memory one_line 1 one_line-Inv).2 0 refl refl

-- The quantity is written once more after the flush, and no flush sees it.
flushed_change_lost_example :
    let pending = get_pending_changes (detect_changes again flushed_once) in
    (contains 0 pending.adds ≡ false)
    × (contains 0 pending.updates ≡ false)
    × (contains 0 pending.deletes ≡ false)
    × (((post_commit again flushed_once).cells 0).snapshot ≡ some (5, 12))
unfolding detect_changes mark_flushed track add_cell new_tracker lookup pk_key is_zero_pk
    loaded_cell
flushed_change_lost_example =
    flushed_change_lost flushed_once 0 again flushed_once-Inv refl refl refl

post_commit_example :
    ((post_commit again flushed_once).entities ≡ keep (survives flushed_once) flushed_once.entities)
    × (get_pending_changes (post_commit again flushed_once) ≡ no_changes)
post_commit_example = post_commit_lem again flushed_once flushed_once-Inv

get_pending_changes_example :
    ((get_pending_changes detected).adds
      ≡ keep
          (λ i. not (detected.cells i).flushed && is_added (detected.cells i).state)
          detected.entities)
    × ((get_pending_changes detected).updates
        ≡ keep
            (λ i. not (detected.cells i).flushed && is_modified (detected.cells i).state)
            detected.entities)
    × ((get_pending_changes detected).deletes
        ≡ keep
            (λ i. not (detected.cells i).flushed && is_deleted (detected.cells i).state)
            detected.entities)
get_pending_changes_example = get_pending_changes_lem detected

-- The changed line is the pending update.
one_update : (get_pending_changes detected).updates ≡ 0 ∷ []
unfolding get_pending_changes detect_changes track add_cell new_tracker lookup pk_key is_zero_pk
    loaded_cell
one_update = refl

restore-save_example :
    let back = restore memory flushed_once (save one_line) in
    (back.entities ≡ one_line.entities)
    × ((i : ℕ) → contains i one_line.entities ≡ true → back.cells i ≡ one_line.cells i)
    × ((e i : ℕ)
        → (lookup nat_same e back.index ≡ some i)
          ↔ ((contains i one_line.entities ≡ true) × ((one_line.cells i).entity ≡ e)))
    × (get_pending_changes back ≡ get_pending_changes one_line)
unfolding detect_changes mark_flushed
restore-save_example = restore-save memory one_line flushed_once one_line-Inv (omega arith)

abbrev opened : Session Line Line
opened = record { mem = memory; tracker = empty; saved = save empty ∷ [] }

Reach-IsValid_example :
    IsValid (record opened { tracker = restore memory one_line (save empty); saved = [] })
Reach-IsValid_example = Reach-IsValid memory line_meta (
    Reach.next
      (Reach.next (Reach.next Reach.here Step.opens) (Step.tracks 1 (some (5, 10)) line_meta))
      (Step.rolls_back (save empty) [] refl))
