-- ===== src/EventStore/Append.antt =====
-- Two writers that read the same version of a stream cannot both append.
use drel.Base.{
  ℕ, suc, ◌≡◌, ◌≢◌, refl, true, Option, none, some, [], ◌∷◌, ◌++◌, List, Text, Bool-cases,
  Option-cases, inl, inr, arith, same_text, same_text_refl, ==_refl, ◌==◌, ◌&&◌, Bool, false,
}
use drel.EventStore.{
  Log, concurrency, not_encoded, failed, has_version, row_of, insert_row, append_loop,
  append_with_metadata,
}

has_version-++ :
    (stream : Text) (version : ℕ) (log rows : Log)
    → has_version stream version log ≡ true
    → has_version stream version (log ++ rows) ≡ true
unfolding has_version
has_version-++ stream version [] rows h = absurd (cc h)
has_version-++ stream version (r ∷ log) rows h =
    elim (Bool-cases (same_text r.stream_id stream && r.version == version)) [
      | inl e ↦ rw e refl
      | inr e ↦ rw e (has_version-++ stream version log rows (simp e at h))
    ]

has_version-last :
    (stream : Text) (version : ℕ) (encoded : Text × Text) (metadata : Text) (all log : Log)
    → has_version stream version (log ++ row_of stream version encoded metadata all ∷ []) ≡ true
unfolding has_version row_of
has_version-last stream version encoded metadata all [] =
    rw (same_text_refl stream, ==_refl version) refl
has_version-last stream version encoded metadata all (r ∷ log) =
    rw (has_version-last stream version encoded metadata all log) (ground arith)

module _ {V : Type 0} (encode : V → Option (Text × Text)) (refuses : Text → ℕ → Log → Bool) where
  -- No part of an append takes a row away.
  has_version-append_loop :
      (s : Text) (v : ℕ) (stream : Text) (version : ℕ) (es : List V) (metadata : Text) (log : Log)
      → has_version s v log ≡ true
      → has_version s v (append_loop encode refuses stream version es metadata log).0 ≡ true
  unfolding append_loop insert_row
  has_version-append_loop s v stream version [] metadata log h = h
  has_version-append_loop s v stream version (e ∷ es) metadata log h =
      elim (Option-cases (encode e)) [
        | inl n ↦ rw (n, append_loop) h
        | inr (encoded, k) ↦ elim (Bool-cases (refuses stream version log)) [
          | inl broken ↦ rw (k, append_loop, broken) h
          | inr works ↦ elim (Bool-cases (has_version stream version log)) [
            | inl taken ↦ rw (k, append_loop, works, taken) h
            | inr free ↦
                rw (k, append_loop, works, free)
                  (has_version-append_loop s v stream (suc version) es metadata
                    (log ++ row_of stream version encoded metadata log ∷ [])
                    (has_version-++ s v log (row_of stream version encoded metadata log ∷ []) h))
          ]
        ]
      ]

  won :
      (stream : Text) (version : ℕ) (e : V) (es : List V) (metadata : Text) (log : Log)
      → (append_loop encode refuses stream version (e ∷ es) metadata log).1 ≡ none
      → has_version stream version
          (append_loop encode refuses stream version (e ∷ es) metadata log).0
        ≡ true
  unfolding append_loop insert_row
  won stream version e es metadata log h = elim (Option-cases (encode e)) [
    | inl n ↦
        absurd
          (let t : Option.some not_encoded ≡ none = simp (n, append_loop) at h in ground (arith, t))
    | inr (encoded, k) ↦ elim (Bool-cases (refuses stream version log)) [
      | inl broken ↦ absurd (
          let t : Option.some failed ≡ none = simp (k, append_loop, broken) at h in
          ground (arith, t))
      | inr works ↦ elim (Bool-cases (has_version stream version log)) [
        | inl taken ↦ rw (k, append_loop, works, taken) taken
        | inr free ↦
            rw (k, append_loop, works, free)
              (has_version-append_loop stream version stream (suc version) es metadata
                (log ++ row_of stream version encoded metadata log ∷ [])
                (has_version-last stream version encoded metadata log log))
      ]
    ]
  ]

  -- After an append that succeeded, another writer that expects the same version of the same stream and
  -- appends at least one event is told of the conflict and changes nothing; its metadata and its first
  -- event can be encoded, and the database does not refuse its first statement for another reason.
  pub second_writer_lem :
      (stream : Text) (expected : ℕ) (e f : V) (es fs : List V) (metadata : Option Text)
      (others : Text) (log : Log)
      → (append_with_metadata encode refuses stream expected (e ∷ es) metadata log).1 ≡ none
      → encode f ≢ none
      → refuses stream
          (suc expected)
          (append_with_metadata encode refuses stream expected (e ∷ es) metadata log).0
        ≡ false
      → append_with_metadata encode refuses stream expected
          (f ∷ fs)
          (some others)
          (append_with_metadata encode refuses stream expected (e ∷ es) metadata log).0
        ≡ (
          (append_with_metadata encode refuses stream expected (e ∷ es) metadata log).0,
          some concurrency,
        )
  unfolding append_with_metadata append_loop insert_row
  second_writer_lem stream expected e f es fs none others log h encodes works =
      absurd (ground (arith, h))
  second_writer_lem stream expected e f es fs (some metadata) others log h encodes works =
      elim (Option-cases (encode f)) [
        | inl n ↦ absurd (encodes n)
        | inr (encoded, k) ↦
            rw (k, append_loop, works, won stream (suc expected) e es metadata log h) refl
      ]
