-- ===== src/Dialect/Sqlite.antt =====
-- internal/dialect/sqlite/sqlite.go: the statements of SQLite and libSQL.
pub mod Where
pub mod Select
pub mod Write
pub mod Bulk
pub mod Request
