-- ===== src/EventStore.antt =====
-- es/es.go: the event store, over a table of SQLite. The rows stand in the order in which they were
-- inserted, and the time of an insert is left out.
pub mod Append
pub mod Checkpoints
pub mod Follow
pub mod Order
pub mod Projection
pub mod RoundTrip
use drel.Base.{
  ℕ, zero, suc, ◌+◌, Bool, true, false, ◌&&◌, ◌||◌, Option, none, some, [], ◌∷◌, ◌++◌, List, Text,
  ltb, leb, ◌==◌, if◌then◌else◌, same_text, keep, take,
}
use drel.Retry.{ℤ}
use drel.Relay.Run.{at_least_one}

pub record Position : Type 0 where
  pub xact_id : ℕ
  pub global_pos : ℕ

-- `Position.Before`.
unfoldable pub before : Position → Position → Bool
before p other =
    if p.xact_id == other.xact_id
    then ltb p.global_pos other.global_pos
    else ltb p.xact_id other.xact_id

pub record Record : Type 0 where
  pub stream_id : Text
  pub version : ℕ
  pub position : Position
  pub type : Text
  pub payload : Text
  pub metadata : Text

abbrev pub Log : Type 0
Log = List Record

pub data AppendError : Type 0 where
  concurrency : AppendError
  not_encoded : AppendError
  failed : AppendError

-- The primary key of a row is its stream and version.
unfoldable pub has_version : Text → ℕ → Log → Bool
has_version stream version [] = false
has_version stream version (r ∷ log) =
    (same_text r.stream_id stream && r.version == version) || has_version stream version log

-- `COALESCE(MAX("global_pos"), 0)`.
unfoldable pub max_position : Log → ℕ
max_position [] = 0
max_position (r ∷ log) =
    let rest = max_position log in
    if ltb rest r.position.global_pos then r.position.global_pos else rest

-- The row that an insert makes; a name and a payload encode an event.
unfoldable pub row_of : Text → ℕ → Text × Text → Text → Log → Record
unfolding max_position
row_of stream version encoded metadata log = record {
  stream_id = stream;
  version = version;
  position = record { xact_id = 0; global_pos = max_position log + 1 };
  type = encoded.0;
  payload = encoded.1;
  metadata = metadata;
}

-- `none` is the violation of the key.
unfoldable pub insert_row : Text → ℕ → Text × Text → Text → Log → Option Log
unfolding has_version row_of
insert_row stream version encoded metadata log =
    if has_version stream version log
    then none
    else some (log ++ row_of stream version encoded metadata log ∷ [])

-- `ORDER BY "xact_id", "global_pos"`.
unfoldable pub place : Record → Log → Log
unfolding before
place r [] = r ∷ []
place r (s ∷ log) =
    let rest = place r log in if before s.position r.position then s ∷ rest else r ∷ s ∷ log

unfoldable pub in_order : Log → Log
unfolding place
in_order [] = []
in_order (r ∷ log) = place r (in_order log)

-- `WHERE ("xact_id", "global_pos") > from`, the order and the limit.
unfoldable pub read_all : Position → ℤ → Log → Log
unfolding before in_order
read_all from limit log =
    take (at_least_one limit) (in_order (keep (λ r. before from r.position) log))

-- `ORDER BY "version"`.
unfoldable pub place_version : Record → Log → Log
place_version r [] = r ∷ []
place_version r (s ∷ log) =
    let rest = place_version r log in if ltb s.version r.version then s ∷ rest else r ∷ s ∷ log

unfoldable pub by_version : Log → Log
unfolding place_version
by_version [] = []
by_version (r ∷ log) = place_version r (by_version log)

unfoldable pub is_in_stream : Text → ℕ → Record → Bool
is_in_stream stream from_version r = same_text r.stream_id stream && leb from_version r.version

-- `WHERE "stream_id" = stream AND "version" >= from_version`, in the order of the versions.
unfoldable pub read : Text → ℕ → Log → Log
unfolding is_in_stream by_version
read stream from_version log = by_version (keep (is_in_stream stream from_version) log)

module _ {V : Type 0} (encode : V → Option (Text × Text)) (refuses : Text → ℕ → Log → Bool) where
  -- The loop of `AppendWithMetadata`; the version is that of the next event. What was inserted before an
  -- error is undone with the transaction of the caller. `refuses` is any other failure of a
  -- statement.
  unfoldable pub append_loop : Text → ℕ → List V → Text → Log → Log × Option AppendError
  unfolding insert_row
  append_loop stream version [] metadata log = (log, none)
  append_loop stream version (e ∷ es) metadata log = elim (encode e) [
    | none ↦ (log, some not_encoded)
    | some encoded ↦ elim (refuses stream version log) [
      | true ↦ (log, some failed)
      | false ↦ elim (insert_row stream version encoded metadata log) [
        | none ↦ (log, some concurrency)
        | some after ↦ append_loop stream (suc version) es metadata after
      ]
    ]
  ]

  -- The metadata is its JSON text, `none` where it has none; no events need no metadata.
  unfoldable pub append_with_metadata :
      Text → ℕ → List V → Option Text → Log → Log × Option AppendError
  unfolding append_loop
  append_with_metadata stream expected es (some metadata) log =
      append_loop stream (suc expected) es metadata log
  append_with_metadata stream expected [] none log = (log, none)
  append_with_metadata stream expected (e ∷ es) none log = (log, some not_encoded)

unfoldable pub last_position : Record → List Record → Position
last_position r [] = r.position
last_position r (s ∷ rs) = last_position s rs

-- A reader that continues from the position of the last record, until a call finds nothing.
unfoldable pub continued : (Position → Log) → Log → Log
unfolding last_position
continued next [] = []
continued next (r ∷ rs) = (r ∷ rs) ++ next (last_position r rs)

unfoldable pub follow : ℕ → ℤ → Position → Log → Log
unfolding continued read_all
follow zero limit from log = []
follow (suc fuel) limit from log =
    continued (λ p. follow fuel limit p log) (read_all from limit log)
