-- ===== src/Tracker.antt =====
-- tracker.go: the change tracker of a transaction, with `stampKey` and the key registry of keys.go.
--
-- An entity is a Go pointer, here a number; what it points at is in a memory. A `trackedEntity` is
-- shared by `entities`, `index` and `byPK`, so it stands in `cells` under a number of its own.
pub mod Keys
pub mod Cells
pub mod Edit
pub mod Flush
pub mod Savepoint
pub mod Invariant
pub mod Identity
pub mod Removal
pub mod Pending
pub mod Commit
pub mod Rollback
pub mod History
