-- ===== src/Dialect/Request.antt =====
-- internal/dialect/dialect.go: the interface of a dialect. A request is one call of a method that builds
-- a statement, with its arguments.
use drel.Base.{ℕ, Bool, Option, List, Text}
use drel.Ast.{Value, SelectNode, WhereClause}
use drel.Dialect.Builder.{ColumnValue}

pub data Request : Type 0 where
  select : SelectNode → Request
  insert : Text → List Text → List Value → List Text → Request
  update : Text → List ColumnValue → List Text → List Value → Request
  delete soft_delete : Text → List Text → List Value → Request
  update_versioned : Text → List ColumnValue → List Text → List Value → Text → ℕ → Request
  delete_versioned soft_delete_versioned : Text → List Text → List Value → Text → ℕ → Request
  bulk_insert : Text → List Text → List (List Value) → Request
  bulk_update : Text → List ColumnValue → Option WhereClause → Request
  bulk_delete bulk_soft_delete : Text → Option WhereClause → Request
  bulk_upsert : Text → List Text → List (List Value) → List Text → List Text → Bool → Request
