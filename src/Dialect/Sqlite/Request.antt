-- ===== src/Dialect/Sqlite/Request.antt =====
-- The requests of the SQLite dialect.
use drel.Base.{◌<◌, ◌≡◌, length}
use drel.Dialect.Builder.{Sql, Binds}
use drel.Dialect.Request.{Request}
use drel.Dialect.Sqlite.Select.{build_select}
use drel.Dialect.Sqlite.Select.Sound.{IsWellFormed, build_select-Binds}
use drel.Dialect.Sqlite.Write.{
  build_insert, build_update, build_delete, build_soft_delete, build_update_versioned,
  build_delete_versioned, build_soft_delete_versioned,
}
use drel.Dialect.Sqlite.Write.Sound.{
  AllClean, build_insert-Binds, build_update-Binds, build_delete-Binds, build_soft_delete-Binds,
  build_update_versioned-Binds, build_delete_versioned-Binds, build_soft_delete_versioned-Binds,
}
use drel.Dialect.Sqlite.Bulk.{
  IsSoundFilter, build_bulk_insert, build_bulk_update, build_bulk_delete, build_bulk_soft_delete,
  build_bulk_upsert, build_bulk_insert-Binds, build_bulk_update-Binds, build_bulk_delete-Binds,
  build_bulk_soft_delete-Binds, build_bulk_upsert-Binds,
}

unfoldable pub build : Request → Sql
build (Request.select node) = build_select node
build (Request.insert t cols vs ret) = build_insert t cols vs ret
build (Request.update t changes pks key) = build_update t changes pks key
build (Request.delete t pks key) = build_delete t pks key
build (Request.soft_delete t pks key) = build_soft_delete t pks key
build (Request.update_versioned t changes pks key col n) =
    build_update_versioned t changes pks key col n
build (Request.delete_versioned t pks key col n) = build_delete_versioned t pks key col n
build (Request.soft_delete_versioned t pks key col n) = build_soft_delete_versioned t pks key col n
build (Request.bulk_insert t cols rows) = build_bulk_insert t cols rows
build (Request.bulk_update t sets filter) = build_bulk_update t sets filter
build (Request.bulk_delete t filter) = build_bulk_delete t filter
build (Request.bulk_soft_delete t filter) = build_bulk_soft_delete t filter
build (Request.bulk_upsert t cols rows conflict ups nothing_done) =
    build_bulk_upsert t cols rows conflict ups nothing_done

-- The filters are sound, a key has a value for each column, raw expressions among the changes are clean,
-- and a versioned delete names the first column of its key.
unfoldable pub IsSoundRequest : Request → Type 0
IsSoundRequest (Request.select node) = IsWellFormed node
IsSoundRequest (Request.insert t cols vs ret) = Unit {0}
IsSoundRequest (Request.update t changes pks key) = (length pks ≡ length key) × AllClean changes
IsSoundRequest (Request.delete t pks key) = length pks ≡ length key
IsSoundRequest (Request.soft_delete t pks key) = length pks ≡ length key
IsSoundRequest (Request.update_versioned t changes pks key col n) =
    (length pks ≡ length key) × AllClean changes
IsSoundRequest (Request.delete_versioned t pks key col n) =
    (length pks ≡ length key) × (0 < length pks)
IsSoundRequest (Request.soft_delete_versioned t pks key col n) =
    (length pks ≡ length key) × (0 < length pks)
IsSoundRequest (Request.bulk_insert t cols rows) = Unit {0}
IsSoundRequest (Request.bulk_update t sets filter) = IsSoundFilter filter
IsSoundRequest (Request.bulk_delete t filter) = IsSoundFilter filter
IsSoundRequest (Request.bulk_soft_delete t filter) = IsSoundFilter filter
IsSoundRequest (Request.bulk_upsert t cols rows conflict ups nothing_done) = Unit {0}

-- Every method of the SQLite dialect that builds a statement, on a request whose filters are sound, whose
-- key has a value for each column and whose raw expressions close their quotes and hold no placeholder,
-- prints without a panic: one placeholder for each argument, and every quote closed.
pub build-Binds : (r : Request) → IsSoundRequest r → Binds (build r)
unfolding build IsSoundRequest
build-Binds (Request.select node) h = build_select-Binds node h
build-Binds (Request.insert t cols vs ret) h = build_insert-Binds t cols vs ret
build-Binds (Request.update t changes pks key) h = build_update-Binds t pks key h.0 changes h.1
build-Binds (Request.delete t pks key) h = build_delete-Binds t pks key h
build-Binds (Request.soft_delete t pks key) h = build_soft_delete-Binds t pks key h
build-Binds (Request.update_versioned t changes pks key col n) h =
    build_update_versioned-Binds t pks key h.0 col n changes h.1
build-Binds (Request.delete_versioned t pks key col n) h =
    build_delete_versioned-Binds t pks key h.0 col n h.1
build-Binds (Request.soft_delete_versioned t pks key col n) h =
    build_soft_delete_versioned-Binds t pks key h.0 col n h.1
build-Binds (Request.bulk_insert t cols rows) h = build_bulk_insert-Binds t cols rows
build-Binds (Request.bulk_update t sets filter) h = build_bulk_update-Binds t sets filter h
build-Binds (Request.bulk_delete t filter) h = build_bulk_delete-Binds t filter h
build-Binds (Request.bulk_soft_delete t filter) h = build_bulk_soft_delete-Binds t filter h
build-Binds (Request.bulk_upsert t cols rows conflict ups nothing_done) h =
    build_bulk_upsert-Binds t cols rows conflict ups nothing_done
