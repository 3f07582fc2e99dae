-- ===== src/Tests/EventStore.antt =====
-- A log of a few rows, whose writers and whose reader run.
use drel.Base.{
  Bool, same_text, ◌≢◌, ℕ, ◌≡◌, refl, Option, none, some, [], ◌∷◌, ◌++◌, List, Text, codes, length,
  keep, map, ltb, arith, if◌then◌else◌,
}
use drel.Retry.{pos}
use drel.EventStore.{Log, AppendError, concurrency, not_encoded, append_with_metadata, read, follow}
use drel.EventStore.Append.{second_writer_lem}
use drel.EventStore.Checkpoints.{start, load}
use drel.EventStore.Projection.{
  Step, append, pass, saved_other, replay, new_world, session, session_lem,
}
use drel.EventStore.Order.{Call, history, follow-history}
use drel.EventStore.RoundTrip.{stored, listed, read-append}
use drel.EventStore.Follow.{is_after}

-- An event is a number; one above 99 cannot be encoded.
abbrev encode : ℕ → Option (Text × Text)
encode n = if ltb 99 n then none else some (codes "Paid", n ∷ [])

-- The database refuses what is written to one stream.
abbrev refuses : Text → ℕ → Log → Bool
refuses stream version log = same_text stream (codes "locked")

abbrev order_log : Log × Option AppendError
order_log =
    append_with_metadata encode refuses (codes "order-1") 0 (3 ∷ 4 ∷ 5 ∷ []) (some (codes "{}")) []

abbrev positions : Log → List ℕ
positions [] = []
positions (r ∷ log) = r.position.global_pos ∷ positions log

appended : positions order_log.0 ≡ 1 ∷ 2 ∷ 3 ∷ []
unfolding append_with_metadata
appended = refl

-- What came before the event that was refused is undone with the transaction of the caller.
refused :
    (append_with_metadata encode refuses
      (codes "order-2")
      0
      (7 ∷ 100 ∷ [])
      (some (codes "{}"))
      order_log.0).1
    ≡ some not_encoded
unfolding append_with_metadata
refused = refl

read_in_pieces : positions (follow 3 (pos 2) start order_log.0) ≡ 1 ∷ 2 ∷ 3 ∷ []
unfolding append_with_metadata follow drel.Relay.Run.at_least_one
read_in_pieces = refl

first_writer : order_log.1 ≡ none
unfolding append_with_metadata
first_writer = refl

second_event : encode 9 ≢ none
second_event h = ground (arith, h)

second_writer_example :
    append_with_metadata encode refuses (codes "order-1") 0 (9 ∷ []) (some (codes "{}")) order_log.0
    ≡ (order_log.0, some concurrency)
second_writer_example =
    second_writer_lem encode refuses (codes "order-1") 0 3 9 (4 ∷ 5 ∷ []) [] (some (codes "{}"))
      (codes "{}") [] first_writer second_event refl

nothing_of_order_2 : read (codes "order-2") 1 order_log.0 ≡ []
unfolding append_with_metadata read
nothing_of_order_2 = refl

order_2_written :
    (append_with_metadata encode refuses
      (codes "order-2")
      0
      (7 ∷ 8 ∷ [])
      (some (codes "{}"))
      order_log.0).1
    ≡ none
unfolding append_with_metadata
order_2_written = refl

read-append_example :
    map stored (
      read
        (codes "order-2")
        1
        (append_with_metadata encode refuses
          (codes "order-2")
          0
          (7 ∷ 8 ∷ [])
          (some (codes "{}"))
          order_log.0).0)
    ≡ listed encode refuses 1 (7 ∷ 8 ∷ [])
read-append_example =
    read-append encode refuses (codes "order-2") 0 (7 ∷ 8 ∷ []) (some (codes "{}")) order_log.0
      nothing_of_order_2 order_2_written

-- The second call is undone, since its second event cannot be encoded.
abbrev calls : List (Call encode refuses)
calls =
    record {
      stream = codes "order-1";
      expected = 0;
      events = 3 ∷ 4 ∷ [];
      metadata = some (codes "{}");
    }
    ∷ record {
      stream = codes "order-2";
      expected = 0;
      events = 7 ∷ 100 ∷ [];
      metadata = some (codes "{}");
    }
    ∷ record {
      stream = codes "order-1";
      expected = 2;
      events = 5 ∷ [];
      metadata = some (codes "{}");
    }
    ∷ []

two_calls_committed : positions (history encode refuses calls []) ≡ 1 ∷ 2 ∷ 3 ∷ []
unfolding history append_with_metadata drel.EventStore.Order.settled
two_calls_committed = refl

follow-history_example :
    follow
      (length (history encode refuses calls []))
      (pos 2)
      start
      (history encode refuses calls [])
    ≡ history encode refuses calls []
follow-history_example = follow-history encode refuses calls (pos 2)

abbrev bill : Text
bill = codes "bill"

-- Two passes with a replay between them, and another projection that is ahead.
abbrev steps : List (Step encode refuses bill)
steps =
    append record {
      stream = codes "order-1";
      expected = 0;
      events = 3 ∷ 4 ∷ 5 ∷ [];
      metadata = some (codes "{}");
    }
    ∷ pass (pos 2)
    ∷ saved_other (codes "mail") (record { xact_id = 0; global_pos = 3 }) refl
    ∷ replay
    ∷ pass (pos 2)
    ∷ append record {
      stream = codes "order-2";
      expected = 0;
      events = 7 ∷ [];
      metadata = some (codes "{}");
    }
    ∷ pass (pos 1)
    ∷ []

three_handled : positions (session encode refuses bill steps new_world).model ≡ 1 ∷ 2 ∷ 3 ∷ []
unfolding session drel.EventStore.Projection.step drel.EventStore.read_all
    drel.Relay.Run.at_least_one drel.EventStore.Order.settled load drel.Base.Assoc.lookup
    drel.EventStore.Checkpoints.reset drel.Base.Assoc.insert drel.EventStore.last_position
three_handled = refl

session_example :
    (session encode refuses bill steps new_world).log
    ≡ (session encode refuses bill steps new_world).model
      ++ keep
          (is_after (load bill (session encode refuses bill steps new_world).checkpoints))
          (session encode refuses bill steps new_world).log
session_example = session_lem encode refuses bill steps
