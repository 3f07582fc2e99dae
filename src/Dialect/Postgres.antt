-- ===== src/Dialect/Postgres.antt =====
-- internal/dialect/postgres/postgres.go: the dialect for Postgres.
pub mod Where
pub mod Select
pub mod Write
pub mod Bulk
pub mod Request
