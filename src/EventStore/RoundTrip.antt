-- ===== src/EventStore/RoundTrip.antt =====
-- What an append wrote is what a read of the stream gives back.
use drel.Base.{
  ℕ, suc, ◌≤◌, ◌≡◌, refl, sym, ◌∙◌, ap, Bool, true, false, Option, none, some, [], ◌∷◌, ◌++◌, List,
  Text, map, keep, append-nil, append_assoc, ◌≢◌, Bool-cases, Option-cases, inl, inr, arith,
  same_text, same_text_refl, ltb, leb, ◌&&◌,
}
use drel.EventStore.{
  Record, Log, has_version, row_of, insert_row, append_loop, append_with_metadata, place_version,
  by_version, is_in_stream, read,
}

abbrev pub stored : Record → ℕ × Option (Text × Text)
stored r = (r.version, some (r.type, r.payload))

-- Rows of the stream, with consecutive versions.
unfoldable pub IsRun : Text → ℕ → Log → Type 0
IsRun stream version [] = Unit {0}
IsRun stream version (r ∷ rs) =
    (same_text r.stream_id stream ≡ true) × (r.version ≡ version) × IsRun stream (suc version) rs

keep-run :
    (stream : Text) (least version : ℕ) (rs : Log)
    → least ≤ version
    → IsRun stream version rs
    → keep (is_in_stream stream least) rs ≡ rs
unfolding IsRun is_in_stream
keep-run stream least version [] le h = refl
keep-run stream least version (r ∷ rs) le h =
    let e : (same_text r.stream_id stream && leb least r.version) ≡ true =
      ground (arith, h.0, h.1, le) in
    rw e (ap (λ q. r ∷ q) (keep-run stream least (suc version) rs (omega (arith, le)) h.2))

by_version-run :
    (stream : Text) (version : ℕ) (rs : Log) → IsRun stream version rs → by_version rs ≡ rs
unfolding IsRun by_version
by_version-run stream version [] h = refl
by_version-run stream version (r ∷ []) h = refl
by_version-run stream version (r ∷ s ∷ rs) h =
    let e : ltb s.version r.version ≡ false = ground (arith, h.1, h.2.1) in
    rw (by_version-run stream (suc version) (s ∷ rs) h.2, e) refl

keep-++ : (p : Record → Bool) (xs ys : Log) → keep p (xs ++ ys) ≡ keep p xs ++ keep p ys
keep-++ p [] ys = refl
keep-++ p (x ∷ xs) ys = elim (Bool-cases (p x)) [
  | inl e ↦ rw e (ap (λ q. x ∷ q) (keep-++ p xs ys))
  | inr e ↦ rw e (keep-++ p xs ys)
]

place_version_cons : (r : Record) (rs : Log) → place_version r rs ≢ []
unfolding place_version
place_version_cons r [] = λ h. ground (arith, h)
place_version_cons r (s ∷ rs) = elim (Bool-cases (ltb s.version r.version)) [
  | inl e ↦ rw e (λ h. ground (arith, h))
  | inr e ↦ rw e (λ h. ground (arith, h))
]

by_version_nil : (rs : Log) → by_version rs ≡ [] → rs ≡ []
unfolding by_version
by_version_nil [] h = refl
by_version_nil (r ∷ rs) h = absurd (place_version_cons r (by_version rs) h)

module _ {V : Type 0} (encode : V → Option (Text × Text)) (refuses : Text → ℕ → Log → Bool) where
  -- The events as rows of consecutive versions.
  unfoldable pub listed : ℕ → List V → List (ℕ × Option (Text × Text))
  listed version [] = []
  listed version (e ∷ es) = (version, encode e) ∷ listed (suc version) es

  -- The rows of an append that succeeded.
  unfoldable pub Appended : Text → ℕ → List V → Text → Log → Type 0
  unfolding listed IsRun
  Appended stream version es metadata log =
      (rs : Log) × ((append_loop encode refuses stream version es metadata log).0 ≡ log ++ rs)
      × IsRun stream version rs
      × (map stored rs ≡ listed version es)

  pub append_loop-Appended :
      (stream : Text) (version : ℕ) (es : List V) (metadata : Text) (log : Log)
      → (append_loop encode refuses stream version es metadata log).1 ≡ none
      → Appended stream version es metadata log
  unfolding Appended append_loop insert_row row_of
  append_loop-Appended stream version [] metadata log = λ h. ([], sym (append-nil log), tt, refl)
  append_loop-Appended stream version (e ∷ es) metadata log = elim (Option-cases (encode e)) [
    | inl n ↦ rw (n, append_loop) (λ h. ground (arith, h))
    | inr (encoded, k) ↦ elim (Bool-cases (refuses stream version log)) [
      | inl broken ↦ rw (k, append_loop, broken) (λ h. ground (arith, h))
      | inr works ↦ elim (Bool-cases (has_version stream version log)) [
        | inl taken ↦ rw (k, append_loop, works, taken) (λ h. ground (arith, h))
        | inr free ↦
            rw (k, append_loop, works, free)
              (λ h.
                let r = row_of stream version encoded metadata log in
                let (rs, grown, run, same) =
                  append_loop-Appended stream (suc version) es metadata (log ++ r ∷ []) h in
                (
                  r ∷ rs,
                  grown ∙ append_assoc log (r ∷ []) rs,
                  (same_text_refl stream, refl, run),
                  ap (λ q. (version, some encoded) ∷ q) same,
                ))
      ]
    ]
  ]

  -- What an append that succeeded added.
  pub append_with_metadata-grows :
      (stream : Text) (expected : ℕ) (es : List V) (metadata : Option Text) (log : Log)
      → (append_with_metadata encode refuses stream expected es metadata log).1 ≡ none
      → (rs : Log) × ((append_with_metadata encode refuses stream expected es metadata log).0
          ≡ log ++ rs)
  unfolding append_with_metadata Appended
  append_with_metadata-grows stream expected [] none log h = ([], sym (append-nil log))
  append_with_metadata-grows stream expected (e ∷ es) none log h = absurd (ground (arith, h))
  append_with_metadata-grows stream expected es (some m) log h =
      let done = append_loop-Appended stream (suc expected) es m log h in (done.0, done.1)

  -- When nothing of the stream stands beyond the expected version and an append succeeds, a read from the
  -- next version on gives exactly the events of the append: in their order, with consecutive versions,
  -- each with its name and payload.
  pub read-append :
      (stream : Text) (expected : ℕ) (es : List V) (metadata : Option Text) (log : Log)
      → read stream (suc expected) log ≡ []
      → (append_with_metadata encode refuses stream expected es metadata log).1 ≡ none
      → map stored (
          read stream
            (suc expected)
            (append_with_metadata encode refuses stream expected es metadata log).0)
        ≡ listed (suc expected) es
  unfolding append_with_metadata read Appended listed
  read-append stream expected [] none log unread h = ap (map stored) unread
  read-append stream expected (e ∷ es) none log unread h = absurd (ground (arith, h))
  read-append stream expected es (some metadata) log unread h =
      let (rs, grown, run, same) = append_loop-Appended stream (suc expected) es metadata log h in
      let kept : keep (is_in_stream stream (suc expected)) (log ++ rs) ≡ rs =
        keep-++ (is_in_stream stream (suc expected)) log rs
        ∙ ap (λ q. q ++ keep (is_in_stream stream (suc expected)) rs)
            (by_version_nil (keep (is_in_stream stream (suc expected)) log) unread)
        ∙ keep-run stream (suc expected) (suc expected) rs (omega arith) run in
      rw (grown, kept, by_version-run stream (suc expected) rs run) same
