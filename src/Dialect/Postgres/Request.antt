-- ===== src/Dialect/Postgres/Request.antt =====
-- The requests of the Postgres dialect, and the advisory lock.
use drel.Base.{◌<◌, ◌≡◌, Option, List, [], ◌∷◌, ◌++◌, Text, codes, length}
use drel.Ast.{Value}
use drel.Dialect.Request.{Request}
use drel.Dialect.Numbered.{Printed, Numbered, lit, bind, ◌⊕◌, finish, PrintsFrom}
use drel.Dialect.Postgres.Select.{build_select}
use drel.Dialect.Postgres.Select.Sound.{
  filter_arguments, select_arguments, IsPrintableFilter, build_select-Prints,
}
use drel.Dialect.Postgres.Write.{
  build_insert, build_update, build_delete, build_soft_delete, build_update_versioned,
  build_delete_versioned, build_soft_delete_versioned,
}
use drel.Dialect.Postgres.Write.Sound.{
  bound_changes, build_insert-Prints, build_update-Prints, build_delete-Prints,
  build_soft_delete-Prints, build_update_versioned-Prints, build_delete_versioned-Prints,
  build_soft_delete_versioned-Prints,
}
use drel.Dialect.Postgres.Bulk.{
  build_bulk_insert, build_bulk_update, build_bulk_delete, build_bulk_soft_delete,
  build_bulk_upsert,
}
use drel.Dialect.Postgres.Bulk.Sound.{
  row_values, set_values, build_bulk_insert-Prints, build_bulk_update-Prints,
  build_bulk_delete-Prints, build_bulk_soft_delete-Prints, build_bulk_upsert-Prints,
}

pub data AdvisoryLockMode : Type 0 where
  advisory_lock_blocking advisory_lock_try : AdvisoryLockMode

abbrev lock_function : AdvisoryLockMode → Text
lock_function advisory_lock_blocking = codes "pg_advisory_xact_lock"
lock_function advisory_lock_try = codes "pg_try_advisory_xact_lock"

unfoldable pub advisory_lock_sql : Value → AdvisoryLockMode → Option Printed
advisory_lock_sql key mode = finish (
    lit (codes "SELECT ") ⊕ lit (lock_function mode) ⊕ lit (codes "(") ⊕ bind key ⊕ lit (codes ")"))

unfoldable pub print_request : Request → Numbered
print_request (Request.select node) = build_select node
print_request (Request.insert t cols vs ret) = build_insert t cols vs ret
print_request (Request.update t changes pks key) = build_update t changes pks key
print_request (Request.delete t pks key) = build_delete t pks key
print_request (Request.soft_delete t pks key) = build_soft_delete t pks key
print_request (Request.update_versioned t changes pks key col n) =
    build_update_versioned t changes pks key col n
print_request (Request.delete_versioned t pks key col n) = build_delete_versioned t pks key col n
print_request (Request.soft_delete_versioned t pks key col n) =
    build_soft_delete_versioned t pks key col n
print_request (Request.bulk_insert t cols rows) = build_bulk_insert t cols rows
print_request (Request.bulk_update t sets filter) = build_bulk_update t sets filter
print_request (Request.bulk_delete t filter) = build_bulk_delete t filter
print_request (Request.bulk_soft_delete t filter) = build_bulk_soft_delete t filter
print_request (Request.bulk_upsert t cols rows conflict ups nothing_done) =
    build_bulk_upsert t cols rows conflict ups nothing_done

unfoldable pub build : Request → Option Printed
unfolding print_request
build r = finish (print_request r)

-- The arguments of a request in the order of its parts: what is assigned, the key, the expected version,
-- the filter.
unfoldable pub request_arguments : Request → List Value
request_arguments (Request.select node) = select_arguments node.type node
request_arguments (Request.insert t cols vs ret) = vs
request_arguments (Request.update t changes pks key) = bound_changes changes ++ key
request_arguments (Request.delete t pks key) = key
request_arguments (Request.soft_delete t pks key) = key
request_arguments (Request.update_versioned t changes pks key col n) =
    bound_changes changes ++ (key ++ Value.number n ∷ [])
request_arguments (Request.delete_versioned t pks key col n) = key ++ Value.number n ∷ []
request_arguments (Request.soft_delete_versioned t pks key col n) = key ++ Value.number n ∷ []
request_arguments (Request.bulk_insert t cols rows) = row_values rows
request_arguments (Request.bulk_update t sets filter) = set_values sets ++ filter_arguments filter
request_arguments (Request.bulk_delete t filter) = filter_arguments filter
request_arguments (Request.bulk_soft_delete t filter) = filter_arguments filter
request_arguments (Request.bulk_upsert t cols rows conflict ups nothing_done) = row_values rows

-- The filters have what the constructors of predicates guarantee, and a key has a value for each column;
-- a versioned delete names the first column of its key.
unfoldable pub IsRequest : Request → Type 0
IsRequest (Request.select node) =
    IsPrintableFilter node.where_clause × IsPrintableFilter node.having
IsRequest (Request.insert t cols vs ret) = Unit {0}
IsRequest (Request.update t changes pks key) = length pks ≡ length key
IsRequest (Request.delete t pks key) = length pks ≡ length key
IsRequest (Request.soft_delete t pks key) = length pks ≡ length key
IsRequest (Request.update_versioned t changes pks key col n) = length pks ≡ length key
IsRequest (Request.delete_versioned t pks key col n) = (length pks ≡ length key) × (0 < length pks)
IsRequest (Request.soft_delete_versioned t pks key col n) =
    (length pks ≡ length key) × (0 < length pks)
IsRequest (Request.bulk_insert t cols rows) = Unit {0}
IsRequest (Request.bulk_update t sets filter) = IsPrintableFilter filter
IsRequest (Request.bulk_delete t filter) = IsPrintableFilter filter
IsRequest (Request.bulk_soft_delete t filter) = IsPrintableFilter filter
IsRequest (Request.bulk_upsert t cols rows conflict ups nothing_done) = Unit {0}

request-Prints :
    (r : Request) → IsRequest r → PrintsFrom 1 (request_arguments r) (print_request r 1)
unfolding IsRequest request_arguments print_request drel.Dialect.Postgres.Write.Sound.guarded
request-Prints (Request.select node) h = build_select-Prints node h.0 h.1 1
request-Prints (Request.insert t cols vs ret) h = build_insert-Prints t cols vs ret 1
request-Prints (Request.update t changes pks key) h = build_update-Prints t pks key h changes 1
request-Prints (Request.delete t pks key) h = build_delete-Prints t pks key h 1
request-Prints (Request.soft_delete t pks key) h = build_soft_delete-Prints t pks key h 1
request-Prints (Request.update_versioned t changes pks key col n) h =
    build_update_versioned-Prints t pks key h col n changes 1
request-Prints (Request.delete_versioned t pks key col n) h =
    build_delete_versioned-Prints t pks key h.0 col n h.1 1
request-Prints (Request.soft_delete_versioned t pks key col n) h =
    build_soft_delete_versioned-Prints t pks key h.0 col n h.1 1
request-Prints (Request.bulk_insert t cols rows) h = build_bulk_insert-Prints t cols rows 1
request-Prints (Request.bulk_update t sets filter) h = build_bulk_update-Prints t sets filter h 1
request-Prints (Request.bulk_delete t filter) h = build_bulk_delete-Prints t filter h 1
request-Prints (Request.bulk_soft_delete t filter) h = build_bulk_soft_delete-Prints t filter h 1
request-Prints (Request.bulk_upsert t cols rows conflict ups nothing_done) h =
    build_bulk_upsert-Prints t cols rows conflict ups nothing_done 1

-- Every method of the Postgres dialect that builds a statement, on a request with complete keys and
-- filters that the constructors of predicates can make, prints without a panic; the placeholders are
-- numbered from 1 without a gap, and the arguments are those of the request in its order.
pub build-PrintsFrom : (r : Request) → IsRequest r → PrintsFrom 1 (request_arguments r) (build r)
unfolding build finish
build-PrintsFrom = request-Prints
