-- ===== src/Transaction/Atomic.antt =====
-- A transaction with an error changes nothing durable.
use drel.Base.{ℕ, ◌≡◌, ◌≢◌, Option, none, some, [], List, Text}
use drel.Dialect.Builder.{Result}
use drel.Tracker.Cells.{Meta, Tracker, new_tracker}
use drel.Mutation.{Fields, Driver}
use drel.Transaction.{TxError, Control, commit, Tx, Ended, Inside}

-- What other connections see. Statements inside a transaction do not change it, nor does a commit
-- that fails.
pub record IsIsolated {D R X C : Type 0} (driver : Driver D R X)
    (control : D → Control → D × Option X) (durable : D → C) : Type 0 where
  pub reads : (d : D) (q : Result) → durable (driver.query_row d q).0 ≡ durable d
  pub writes : (d : D) (q : Result) → durable (driver.exec d q).0 ≡ durable d
  pub controls : (d : D) (c : Control) → c ≢ commit → durable (control d c).0 ≡ durable d
  pub failed_commits :
      (d : D) (x : X) → (control d commit).1 ≡ some x → durable (control d commit).0 ≡ durable d

module _ {D E S R X V C : Type 0} (driver : Driver D R X) (fields : Meta E S → Fields E R X)
    (actor : Text) (control : D → Control → D × Option X) (pending_events : E → List V)
    (clear_events : E → E) (durable : D → C) (isolated : IsIsolated driver control durable) where
  -- The program reaches the database only through the transaction.
  abbrev pub StaysInside : Inside D E S V X → Type 0
  StaysInside act = (tx : Tx D E S V) → durable (act tx).0.state.db ≡ durable tx.state.db

  -- With an error nothing durable changed and no event is dispatched. Without one, the durable contents
  -- are those of a commit, which was the first to change them.
  unfoldable pub EndsWell : C → Option (TxError X) → D → List V → Type 0
  EndsWell before (some e) db events = (durable db ≡ before) × (events ≡ [])
  EndsWell before none db events = (d : D) × (durable d ≡ before) × (control d commit ≡ (db, none))

  abbrev pub IsAtomic : C → Ended D E X V → Type 0
  IsAtomic before ended = EndsWell before ended.failure ended.state.db ended.dispatched

  abbrev fresh : Meta E S → (ℕ → E) → D → Tx D E S V
  fresh no_meta mem db = record {
    tracker = new_tracker E S no_meta;
    state = record { db = db; mem = mem };
    held_events = [];
    sp_counter = 0;
  }

  module _ (before : C) where
    abbrev IsKept : Tx D E S V → Type 0
    IsKept tx = durable tx.state.db ≡ before
