-- ===== src/Tests/Transaction.antt =====
-- A transaction and a savepoint over a small database.
use drel.Base.{
  sym, append-nil, ℕ, suc, ◌≡◌, refl, false, Option, none, some, [], ◌∷◌, List, Text, codes, ◌==◌,
  if◌then◌else◌,
}
use drel.Tracker.Cells.{new_tracker}
use drel.Tracker.Edit.{mark_added}
use drel.Mutation.{Driver, ok}
use drel.Transaction.{
  Control, begin, commit, rollback, savepoint, release_savepoint, rollback_to, Tx, Inside,
  program_error, with_savepoint, sanitize_savepoint,
}
use drel.Transaction.Nested.{EndsNested, with_savepoint_lem}
use drel.Tests.Mutation.{note_meta, note_fields, no_config, memory}

-- The count of statements that the open transaction ran, and the count at the last commit.
abbrev Db : Type 0
Db = ℕ × ℕ

abbrev ran_one : Db → Db
ran_one (n, c) = (suc n, c)

abbrev driver : Driver Db (Option ℕ) Text
driver = record {
  query_row = λ d q. (ran_one d, some 70);
  exec = λ d q. (ran_one d, ok 1);
  scan_ignored = λ r. none;
  scan_version = λ r. ok 1;
  scan_key = λ r. none;
  is_no_rows = λ x. false;
}

-- A commit of nine statements fails.
abbrev committing : Db → Db × Option Text
committing (n, c) = if n == 9 then ((n, c), some (codes "full")) else ((n, n), none)

abbrev control : Db → Control → Db × Option Text
control d commit = committing d
control (n, c) begin = ((c, c), none)
control (n, c) rollback = ((c, c), none)
control d (savepoint name) = (d, none)
control d (release_savepoint name) = (d, none)
control d (rollback_to name) = (d, none)

abbrev durable : Db → ℕ
durable (n, c) = c

abbrev events_of_note : ℕ → List ℕ
events_of_note e = e ∷ []

abbrev adds_note : Inside Db ℕ ℕ ℕ Text
adds_note tx =
    (record tx { tracker = (mark_added no_config 0 tx.state.mem tx.tracker 1 note_meta).1 }, none)

-- A sink that writes one row of an outbox.
abbrev writes_row : List ℕ → Inside Db ℕ ℕ ℕ Text
writes_row events tx = (record tx { state = record tx.state { db = ran_one tx.state.db } }, none)

-- The function adds a note, writes one row and then gives up.
abbrev gives_up : Inside Db ℕ ℕ ℕ Text
gives_up tx = (
  (adds_note (record tx { state = record tx.state { db = ran_one tx.state.db } })).0,
  some (program_error (codes "no")),
)

abbrev open_tx : Tx Db ℕ ℕ ℕ
open_tx = record {
  tracker = new_tracker ℕ ℕ note_meta;
  state = record { db = (4, 4); mem = memory };
  held_events = 5 ∷ [];
  sp_counter = 0;
}

with_savepoint_example :
    let r =
      with_savepoint driver note_fields
        (codes "me")
        control
        events_of_note
        (λ e. e)
        (codes "a b")
        gives_up
        open_tx in
    EndsNested driver note_fields (codes "me") control events_of_note (λ e. e) open_tx r.0 r.1
with_savepoint_example =
    with_savepoint_lem driver note_fields (codes "me") control events_of_note (λ e. e)
      (λ d sp. refl) (codes "a b") gives_up (λ tx. ([], sym (append-nil tx.held_events))) open_tx

-- `aé-b`: one underscore for the two bytes of `é`, and one for the dash.
one_underscore : sanitize_savepoint (97 ∷ 195 ∷ 169 ∷ 45 ∷ 98 ∷ []) ≡ codes "sp_a__b"
unfolding sanitize_savepoint
one_underscore = refl

-- A byte that begins no rune.
invalid_byte : sanitize_savepoint (195 ∷ 97 ∷ []) ≡ codes "sp__a"
unfolding sanitize_savepoint
invalid_byte = refl
