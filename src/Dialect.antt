-- ===== src/Dialect.antt =====
-- internal/dialect/dialect.go: what a dialect returns, and the pieces that both dialects share.
pub mod Builder
pub mod Numbered
pub mod Quote
pub mod Sqlite
pub mod Postgres
pub mod Request
