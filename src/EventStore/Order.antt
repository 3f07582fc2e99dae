-- ===== src/EventStore/Order.antt =====
-- The positions of the log on SQLite.
use drel.Base.{
  ℕ, suc, ◌+◌, ◌≤◌, ◌≡◌, ◌∙◌, refl, true, Option, none, some, [], ◌∷◌, ◌++◌, List, Text, All,
  All-append, Bool-cases, Option-cases, inl, inr, arith, keep, length, Bool,
}
use drel.Retry.{ℤ}
use drel.EventStore.{
  before, Record, Log, has_version, max_position, row_of, insert_row, append_loop,
  append_with_metadata, follow,
}
use drel.EventStore.Checkpoints.{start}
use drel.EventStore.Follow.{is_after, IsOrdered, follow_lem, keep-All}

-- Every row has the default transaction number of SQLite, a global position of at least 1, and stands
-- behind the rows before it.
unfoldable pub IsSqlite : Record → Type 0
IsSqlite r = (r.position.xact_id ≡ 0) × (1 ≤ r.position.global_pos)

unfoldable pub IsLog : Log → Type 0
unfolding IsSqlite
IsLog log = All IsSqlite log × IsOrdered log

max_position-bound :
    (r : Record) (log : Log)
    → (r.position.global_pos ≤ max_position (r ∷ log)) × (max_position log ≤ max_position (r ∷ log))
unfolding max_position
max_position-bound r log = (ground arith, ground arith)

max_is_before :
    (n : ℕ) (r : Record) (log : Log)
    → r.position ≡ record { xact_id = 0; global_pos = n + 1 }
    → max_position log ≤ n
    → All IsSqlite log
    → All (λ s. is_after s.position r ≡ true) log
unfolding IsSqlite before
max_is_before n r [] e le h = tt
max_is_before n r (s ∷ log) e le h =
    let (a, b) = max_position-bound s log in
    (
      rw e (let z = h.0.0 in ground (arith, z, a, le)),
      max_is_before n r log e (omega (arith, b, le)) h.1,
    )

IsOrdered-last :
    (log : Log) (r : Record)
    → IsOrdered log
    → All (λ s. is_after s.position r ≡ true) log
    → IsOrdered (log ++ r ∷ [])
unfolding IsOrdered
IsOrdered-last [] r o h = (tt, tt)
IsOrdered-last (s ∷ log) r o h = (
  All-append (λ q. is_after s.position q ≡ true) log (r ∷ []) o.0 (h.0, tt),
  IsOrdered-last log r o.1 h.1,
)

row_of-IsLog :
    (stream : Text) (version : ℕ) (encoded : Text × Text) (metadata : Text) (log : Log)
    → IsLog log
    → IsLog (log ++ row_of stream version encoded metadata log ∷ [])
unfolding IsLog IsSqlite row_of
row_of-IsLog stream version encoded metadata log h =
    let r = row_of stream version encoded metadata log in
    (
      All-append IsSqlite log (r ∷ []) h.0 ((refl, omega arith), tt),
      IsOrdered-last log r h.1 (max_is_before (max_position log) r log refl (omega arith) h.0),
    )

pub after_start : (log : Log) → All IsSqlite log → All (λ r. is_after start r ≡ true) log
unfolding IsSqlite before
after_start [] h = tt
after_start (r ∷ log) h = let (z, p) = h.0 in (ground (arith, z, p), after_start log h.1)

module _ {V : Type 0} (encode : V → Option (Text × Text)) (refuses : Text → ℕ → Log → Bool) where
  append_loop-IsLog :
      (stream : Text) (version : ℕ) (es : List V) (metadata : Text) (log : Log)
      → IsLog log
      → IsLog (append_loop encode refuses stream version es metadata log).0
  unfolding append_loop insert_row
  append_loop-IsLog stream version [] metadata log h = h
  append_loop-IsLog stream version (e ∷ es) metadata log h = elim (Option-cases (encode e)) [
    | inl n ↦ rw (n, append_loop) h
    | inr (encoded, k) ↦ elim (Bool-cases (refuses stream version log)) [
      | inl broken ↦ rw (k, append_loop, broken) h
      | inr works ↦ elim (Bool-cases (has_version stream version log)) [
        | inl taken ↦ rw (k, append_loop, works, taken) h
        | inr free ↦
            rw (k, append_loop, works, free)
              (append_loop-IsLog stream (suc version) es metadata
                (log ++ row_of stream version encoded metadata log ∷ [])
                (row_of-IsLog stream version encoded metadata log h))
      ]
    ]
  ]

  -- A call of `AppendWithMetadata` in a transaction of its own, which is undone with an error.
  pub record Call : Type 0 where
    pub stream : Text
    pub expected : ℕ
    pub events : List V
    pub metadata : Option Text

  unfoldable pub settled : Call → Log → Log
  unfolding append_with_metadata
  settled c log =
      let after = append_with_metadata encode refuses c.stream c.expected c.events c.metadata log in
      elim after.1 [ none ↦ after.0 | some e ↦ log ]

  -- The log of a new table after a number of calls.
  unfoldable pub history : List Call → Log → Log
  history [] log = log
  history (c ∷ cs) log = history cs (settled c log)

  append_with_metadata-IsLog :
      (stream : Text) (expected : ℕ) (es : List V) (metadata : Option Text) (log : Log)
      → IsLog log
      → IsLog (append_with_metadata encode refuses stream expected es metadata log).0
  unfolding append_with_metadata
  append_with_metadata-IsLog stream expected es (some m) log h =
      append_loop-IsLog stream (suc expected) es m log h
  append_with_metadata-IsLog stream expected [] none log h = h
  append_with_metadata-IsLog stream expected (e ∷ es) none log h = h

  pub settled-IsLog : (c : Call) (log : Log) → IsLog log → IsLog (settled c log)
  unfolding settled
  settled-IsLog c log h =
      let after = append_with_metadata encode refuses c.stream c.expected c.events c.metadata log in
      elim (Option-cases after.1) [
        | inl n ↦
            rw (n, settled)
              (append_with_metadata-IsLog c.stream c.expected c.events c.metadata log h)
        | inr (e, k) ↦ rw (k, settled) h
      ]

  history-IsLog : (cs : List Call) (log : Log) → IsLog log → IsLog (history cs log)
  unfolding history
  history-IsLog [] log h = h
  history-IsLog (c ∷ cs) log h = history-IsLog cs (settled c log) (settled-IsLog c log h)

  -- Whatever calls of AppendWithMetadata were made on a new table, each in a transaction that an error
  -- undoes, a reader that starts at the zero position and asks again from the position of the last record
  -- gets every row of the table, once and in the order of the inserts, in at most as many calls as there
  -- are rows.
  pub follow-history :
      (cs : List Call) (limit : ℤ)
      → follow (length (history cs [])) limit start (history cs []) ≡ history cs []
  unfolding IsLog IsOrdered
  follow-history cs limit =
      let log = history cs [] in
      let h = history-IsLog cs [] (tt, tt) in
      let all : keep (is_after start) log ≡ log = keep-All start log (after_start log h.0) in
      follow_lem (length log) limit start log h.1 (rw all (omega arith)) ∙ all
