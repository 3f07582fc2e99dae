-- ===== src/Transaction.antt =====
-- transaction.go and tx.go: a unit of work over a change tracker and a driver. What the program does
-- inside a transaction is a parameter.
pub mod Atomic
pub mod Nested
use drel.Base.{
  ℕ, zero, suc, ◌+◌, ◌≤◌, Bool, true, false, ◌&&◌, ◌||◌, Option, none, some, [], ◌∷◌, ◌++◌, List,
  Text, codes, leb, ◌==◌, length, take, if◌then◌else◌,
}
use drel.Dialect.Builder.{decimal}
use drel.Tracker.Cells.{Meta, TrackedEntity, Tracker, new_tracker, update}
use drel.Tracker.Flush.{reset_flushed, post_commit}
use drel.Tracker.Savepoint.{TrackerState, save, restore}
use drel.Mutation.{Failure, Fields, Reply, ok, error, Driver, FlushState, apply_pending_changes}

-- An error of a flush, of the driver, or of the program.
pub data TxError (X : Type 0) : Type 0 where
  flush_error : Failure X → TxError X
  database_error : X → TxError X
  program_error : Text → TxError X

pub data Control : Type 0 where
  begin commit rollback : Control
  savepoint release_savepoint rollback_to : Text → Control

pub record Tx (D E S V : Type 0) : Type 0 where
  pub tracker : Tracker E S
  pub state : FlushState D E
  pub held_events : List V
  pub sp_counter : ℕ

-- What a transaction leaves: the state, its error, and the events for the hooks that run after a commit.
pub record Ended (D E X V : Type 0) : Type 0 where
  pub state : FlushState D E
  pub failure : Option (TxError X)
  pub dispatched : List V

abbrev is_name_char : ℕ → Bool
is_name_char c =
    (leb 97 c && leb c 122) || ((leb 65 c && leb c 90) || ((leb 48 c && leb c 57) || c == 95))

abbrev is_between : ℕ → ℕ → ℕ → Bool
is_between low high c = leb low c && leb c high

-- The range of the second byte of a rune, by its first.
abbrev is_second : ℕ → ℕ → Bool
is_second lead c =
    if lead == 224
    then is_between 160 191 c
    else (if lead == 237
        then is_between 128 159 c
        else (if lead == 240
            then is_between 144 191 c
            else (if lead == 244 then is_between 128 143 c else is_between 128 191 c)))

-- Go ranges over the runes of UTF-8: the number of bytes behind the first one, 0 where they are no
-- valid rune, as a byte alone is a rune then.
unfoldable pub rune_tail : ℕ → Text → ℕ
rune_tail lead (c ∷ d ∷ e ∷ t) =
    if is_between 194 223 lead && is_second lead c
    then 1
    else (if is_between 224 239 lead && (is_second lead c && is_between 128 191 d)
        then 2
        else (if is_between 240 244 lead
              && (is_second lead c && (is_between 128 191 d && is_between 128 191 e))
            then 3
            else 0))
rune_tail lead (c ∷ d ∷ []) =
    if is_between 194 223 lead && is_second lead c
    then 1
    else (if is_between 224 239 lead && (is_second lead c && is_between 128 191 d) then 2 else 0)
rune_tail lead (c ∷ []) = if is_between 194 223 lead && is_second lead c then 1 else 0
rune_tail lead [] = 0

-- One byte for each rune; the number is that of the bytes of the last rune that are left.
unfoldable pub sanitized : ℕ → Text → Text
unfolding rune_tail
sanitized left [] = []
sanitized zero (c ∷ t) = (if is_name_char c then c else 95) ∷ sanitized (rune_tail c t) t
sanitized (suc left) (c ∷ t) = sanitized left t

unfoldable pub sanitize_savepoint : Text → Text
unfolding sanitized
sanitize_savepoint name = codes "sp_" ++ sanitized 0 name

-- Code of the program inside the transaction.
abbrev pub Inside : Type 0 → Type 0 → Type 0 → Type 0 → Type 0 → Type 0
Inside D E S V X = Tx D E S V → Tx D E S V × Option (TxError X)

module _ {D E S R X V : Type 0} (driver : Driver D R X) (fields : Meta E S → Fields E R X)
    (actor : Text) (control : D → Control → D × Option X) (pending_events : E → List V)
    (clear_events : E → E) where
  unfoldable pub events_of : (ℕ → E) → (ℕ → TrackedEntity E S) → List ℕ → List V
  events_of mem cells [] = []
  events_of mem cells (i ∷ is) = pending_events (mem (cells i).entity) ++ events_of mem cells is

  unfoldable pub flushed_events :
      Tx D E S V
      → (Tracker E S × FlushState D E) × Reply (Failure X) (List ℕ)
      → Tx D E S V × Reply (Failure X) (List V)
  unfolding events_of
  flushed_events tx ((t, st), error f) = (record tx { tracker = t; state = st }, error f)
  flushed_events tx ((t, st), ok is) =
      (record tx { tracker = t; state = st }, ok (events_of st.mem t.cells is))

  unfoldable pub flush_changes : Tx D E S V → Tx D E S V × Reply (Failure X) (List V)
  unfolding flushed_events
  flush_changes tx =
      flushed_events tx (apply_pending_changes driver fields actor tx.tracker tx.state)

  unfoldable pub hold_events :
      Tx D E S V × Reply (Failure X) (List V) → Tx D E S V × Option (TxError X)
  hold_events (tx, error f) = (tx, some (flush_error f))
  hold_events (tx, ok events) = (record tx { held_events = tx.held_events ++ events }, none)

  unfoldable pub save_changes : Inside D E S V X
  unfolding flush_changes hold_events
  save_changes tx = hold_events (flush_changes tx)

  unfoldable pub send : Control → Tx D E S V → Tx D E S V × Option X
  send c tx =
      let (db, err) = control tx.state.db c in
      (record tx { state = record tx.state { db = db } }, err)

  unfoldable pub unwound : TrackerState E S → ℕ → Tx D E S V → Tx D E S V
  unwound saved events tx = record tx {
    tracker = restore tx.state.mem tx.tracker saved;
    held_events = take events tx.held_events;
  }

  -- `rewindSavepoint` after the rollback; the release's error is dropped.
  unfoldable pub rewound :
      Text
      → TrackerState E S
      → ℕ
      → TxError X
      → Tx D E S V × Option X
      → Tx D E S V × Option (TxError X)
  unfolding send unwound
  rewound sp saved events cause (tx, some x) = (tx, some (database_error x))
  rewound sp saved events cause (tx, none) =
      (unwound saved events (send (release_savepoint sp) tx).0, some cause)

  unfoldable pub rewind_savepoint :
      Text → TrackerState E S → ℕ → TxError X → Tx D E S V → Tx D E S V × Option (TxError X)
  unfolding rewound
  rewind_savepoint sp saved events cause tx =
      rewound sp saved events cause (send (rollback_to sp) tx)

  unfoldable pub released_savepoint :
      TrackerState E S → ℕ → Tx D E S V × Option X → Tx D E S V × Option (TxError X)
  unfolding unwound
  released_savepoint saved events (tx, none) = (tx, none)
  released_savepoint saved events (tx, some x) = (unwound saved events tx, some (database_error x))

  unfoldable pub saved_or_rewound :
      Text
      → TrackerState E S
      → ℕ
      → Tx D E S V × Option (TxError X)
      → Tx D E S V × Option (TxError X)
  unfolding rewind_savepoint released_savepoint
  saved_or_rewound sp saved events (tx, some e) = rewind_savepoint sp saved events e tx
  saved_or_rewound sp saved events (tx, none) =
      released_savepoint saved events (send (release_savepoint sp) tx)

  unfoldable pub nested :
      Text
      → TrackerState E S
      → ℕ
      → Tx D E S V × Option (TxError X)
      → Tx D E S V × Option (TxError X)
  unfolding save_changes saved_or_rewound
  nested sp saved events (tx, some e) = rewind_savepoint sp saved events e tx
  nested sp saved events (tx, none) = saved_or_rewound sp saved events (save_changes tx)

  unfoldable pub opened :
      Text
      → TrackerState E S
      → ℕ
      → Inside D E S V X
      → Tx D E S V × Option X
      → Tx D E S V × Option (TxError X)
  unfolding nested
  opened sp saved events fn (tx, some x) = (tx, some (database_error x))
  opened sp saved events fn (tx, none) = nested sp saved events (fn tx)

  -- `Savepoint`; the counter keeps the names of one transaction apart.
  unfoldable pub with_savepoint : Text → Inside D E S V X → Inside D E S V X
  unfolding opened
  with_savepoint name fn tx =
      let counted = record tx { sp_counter = suc tx.sp_counter } in
      let sp = sanitize_savepoint name ++ (codes "_" ++ decimal counted.sp_counter) in
      opened sp (save tx.tracker) (length tx.held_events) fn (send (savepoint sp) counted)

  -- Hooks before the commit, and event sinks: the loop ends at the first error.
  unfoldable pub run_hooks : List (List V → Inside D E S V X) → List V → Inside D E S V X
  run_hooks [] events tx = (tx, none)
  run_hooks (hook ∷ hooks) events tx =
      let (after, err) = hook events tx in
      elim err [ some e ↦ (after, some e) | none ↦ run_hooks hooks events after ]

  unfoldable pub clear_pending_events : (ℕ → TrackedEntity E S) → List ℕ → (ℕ → E) → ℕ → E
  clear_pending_events cells [] mem = mem
  clear_pending_events cells (i ∷ is) mem =
      clear_pending_events cells is
        (update mem (cells i).entity (clear_events (mem (cells i).entity)))

  -- The deferred rollback of a transaction with an error.
  unfoldable pub rolled_back : TxError X → Tx D E S V → Ended D E X V
  unfolding send
  rolled_back e tx = record {
    state = (send rollback tx).0.state;
    failure = some e;
    dispatched = [];
  }

  unfoldable pub with_reset : Tx D E S V → Tx D E S V
  with_reset tx = record tx { tracker = reset_flushed tx.tracker }

  unfoldable pub committed : List V → Tx D E S V × Option X → Ended D E X V
  unfolding rolled_back with_reset clear_pending_events
  committed events (tx, some x) = rolled_back (database_error x) (with_reset tx)
  committed events (tx, none) =
      let t = post_commit tx.state.mem tx.tracker in
      record {
        state = record tx.state { mem = clear_pending_events t.cells t.entities tx.state.mem };
        failure = none;
        dispatched = events;
      }

  unfoldable pub commit_or_stop : List V → Tx D E S V × Option (TxError X) → Ended D E X V
  unfolding committed
  commit_or_stop events (tx, some e) = rolled_back e (with_reset tx)
  commit_or_stop events (tx, none) = committed events (send commit tx)

  module _ (hooks sinks : List (List V → Inside D E S V X)) where
    unfoldable pub sunk : List V → Tx D E S V × Reply (Failure X) (List V) → Ended D E X V
    unfolding run_hooks commit_or_stop
    sunk events (tx, error f) = rolled_back (flush_error f) (with_reset tx)
    sunk events (tx, ok more) =
        commit_or_stop (events ++ more) (run_hooks sinks (events ++ more) tx)

    unfoldable pub hooked : List V → Tx D E S V × Option (TxError X) → Ended D E X V
    unfolding sunk flush_changes
    hooked events (tx, some e) = rolled_back e (with_reset tx)
    hooked events (tx, none) = sunk events (flush_changes tx)

    unfoldable pub flushed : Tx D E S V × Reply (Failure X) (List V) → Ended D E X V
    unfolding hooked
    flushed (tx, error f) = rolled_back (flush_error f) (with_reset tx)
    flushed (tx, ok events) =
        hooked (tx.held_events ++ events) (run_hooks hooks (tx.held_events ++ events) tx)

    unfoldable pub ran : Tx D E S V × Option (TxError X) → Ended D E X V
    unfolding flushed flush_changes
    ran (tx, some e) = rolled_back e tx
    ran (tx, none) = flushed (flush_changes tx)

    unfoldable pub begun : Meta E S → Inside D E S V X → (ℕ → E) → D × Option X → Ended D E X V
    unfolding ran
    begun no_meta fn mem (db, some x) = record {
      state = record { db = db; mem = mem };
      failure = some (database_error x);
      dispatched = [];
    }
    begun no_meta fn mem (db, none) = ran (
        fn (record {
          tracker = new_tracker E S no_meta;
          state = record { db = db; mem = mem };
          held_events = [];
          sp_counter = 0;
        }))

    -- `Transaction`. The meta fills the cells that no entity has.
    unfoldable pub transaction : Meta E S → Inside D E S V X → FlushState D E → Ended D E X V
    unfolding begun
    transaction no_meta fn st = begun no_meta fn st.mem (control st.db begin)
