-- ===== src/Lib.antt =====
-- A verification of drel, an object-relational mapper for Go with a unit of work: its query tree,
-- the SQL that the dialects print for it, predicates, pages, the change tracker, and the relay that
-- publishes the outbox, and the event store.
--
-- A query is a tree of nodes (internal/ast/ast.go). Predicates (predicate.go, filter.go,
-- pkpredicate.go), orderings (order.go) and keyset pages (pagination.go) build such trees, and a
-- dialect (internal/dialect) prints them to SQL text with a list of arguments. A unit of work loads
-- entities into a change tracker (tracker.go), which a flush turns into INSERTs, UPDATEs and DELETEs
-- (mutation.go), and savepoints save and restore the tracker. Events that a transaction wrote to the
-- outbox (outbox.go) are claimed and published by replicas of a relay (relay.go).
--
-- - Base and Base/*: the library names that the modules share, text as a list of byte codes,
--   association lists and lists of identifiers.
-- - Ast: internal/ast/ast.go, with each constant and field. Go's `any` is `Value`: a time, a raw SQL
--   expression, or a plain number or text; drivers take the rest as they are.
-- - Lex: how a database reads a statement, the specification of the printers.
-- - Dialect/Builder, Dialect/Quote, Dialect/Sqlite/*: internal/dialect/sqlite/sqlite.go. A
--   `strings.Builder` with an argument slice is a value of `Sql`, text and arguments, that is `none`
--   where the source panics. Where has writeWhere, writeComparison and writeOrderBy, Select has
--   BuildSelect, Write the statements for one row with dedupLastWins, Bulk those for many rows. Each
--   has its proofs in child modules (Where/Sound, Select/Sound, Write/Sound, Write/Dedup).
-- - Dialect/Numbered, Dialect/Postgres/*: internal/dialect/postgres/postgres.go. A statement is printed
--   from a next free number to pieces, SQL or a placeholder `$n`, the arguments, and the next number
--   after it, or to `none` for a panic. Where, Select, Write and Bulk are as for SQLite; what both
--   packages write alike (dedupLastWins, isEmptyClause, aggFuncSQL, quoteIdent, quoteCol) they share.
-- - Dialect/Request: the methods of the interface in internal/dialect/dialect.go that build statements,
--   as one data type; Request of each dialect sends a request to its builder.
-- - Predicate: newComparison and its kin, And, Or, Not, True, WhereIf, Raw with
--   countRawPlaceholders, pkPredicate. A panic is `none`. Predicate/Sound and Predicate/Numbered
--   tie the predicates that can be built (Predicate/Built) to the two printers; Predicate/Key says which
--   rows pass the predicate of a key.
-- - Pagination: keysetClause, cursorOrder, invertOrder, buildOffsetPage, validateCursorColumns. Sql
--   states what a database makes of a clause, in three truth values, and which rows come after a
--   cursor; Keyset, Mirror and Offset compare the code with it.
-- - Mutation: applyPendingChanges and execVersionedDelete (mutation.go) with the SQLite dialect. A step
--   takes the database and the memory and gives both back with the failure that ends the flush.
--   Flushed ties a flush to its writes, and Notices says that none of their failures is swallowed.
-- - Transaction: Engine.Transaction (transaction.go), SaveChanges and Savepoint (tx.go) with flushChanges
--   and the events of mutation.go. Each stage of a transaction is a function of the stage before and its
--   error, so that a statement's early return is a clause. The driver takes begin, commit, rollback and
--   the savepoint statements as one parameter. Atomic and Nested have the proofs, Mutation/Keeps what a
--   flush keeps of the database.
-- - Placeholder: rewritePlaceholders (placeholder.go), byte by byte.
-- - Relay: the relay (relay.go) over the tables of outbox.go. Table has each SQL statement as a function
--   of the tables, Run and Batch the methods (claim, publishBatch, publishOne, ack, fail, release,
--   RunOnce) over a world in which a statement is answered, or is lost after it ran, or does not run.
--   Groups are published one after the other, which is one of the orders in which the goroutines can
--   run. Exclusion has replicas with synchronised clocks as a step relation; Claim, Publish, Order and
--   Released have the proofs.
-- - EventStore: the event store (es/es.go) on SQLite, its table as the list of its rows: Append and
--   AppendWithMetadata, whose JSON and whose other failures are parameters, Read and ReadAll. `follow` is the reader that ReadAll
--   documents: it asks again from the position of the last record, on a number of calls as fuel, which
--   its theorem shows to be enough. Checkpoints has es/checkpoint.go, and Projection a reader that uses
--   it as its documentation says. Append, Follow, Order and RoundTrip have the other proofs.
-- - Retry: TransactionWithRetry (retry.go) on the number of attempts as fuel, which its theorem shows
--   to be enough. Delays are nanoseconds, and the shift and the jitter's sum wrap around
--   at 64 bits.
-- - Tracker: the change tracker. A tracked entity (trackedEntity) is a cell under an identifier that
--   is never used again, as the address of the struct is in the source; the pointer of an entity is a
--   number, and what the program has in memory is a function from pointers to entities, which an
--   operation takes where the source reads through a pointer. Keys has the identity keys, Cells the
--   state, Edit the operations between flushes, Flush detection, pending changes and PostCommit,
--   Savepoint save and restore. Invariant, Pending, Identity, Removal, Commit, Rollback and History
--   hold the proofs; History has every operation as a step of a session.
-- - Tests: runs at concrete inputs, and each theorem at an input that meets its hypotheses.
--
-- All other loops are structural recursion on the slices that they range over, so there is no fuel,
-- with one exception: the decimal digits of a number take the number's successor as fuel, which is at
-- least the number of its digits. Integers of the source that are counts, limits, versions and keys
-- are taken as natural numbers without overflow; a negative key is a constructor of its own. The
-- numbers of an offset page are bit patterns of 64 bits, and their sums wrap around.
--
-- Parameters: the registry of key strategies (keys.go) with its generators, the accessors that are
-- generated for a model (ModelMetaBase), the driver of a database, the order and the equality of
-- column values in a database and where it puts NULL when a query does not say, the transaction
-- that is retried, the wait between its runs and the random numbers of its jitter, the truth of the
-- clauses that a page does not make, the transport of a relay, the fate and the time of each of its
-- statements, the encoding of an event and the failures of an append that are no conflict, and what
-- the program, its hooks and its sinks do inside a transaction.
--
-- Not modelled: panics of the program inside a transaction and the drivers, the endless poll of the
-- relay and the inbox, the Postgres watermark of the event store, bulk writes and includes,
-- migrations and code generation, and whatever only moves data in and out (logging, scanning of
-- rows, the encoding of a cursor, the command line).
mod Base
pub mod Ast
pub mod Lex
pub mod EventStore
pub mod Dialect
pub mod Mutation
pub mod Pagination
pub mod Placeholder
pub mod Predicate
pub mod Tracker
pub mod Relay
pub mod Retry
pub mod Transaction
pub mod Tests
