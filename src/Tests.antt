-- ===== src/Tests.antt =====
-- Runs at concrete inputs, and the theorems at inputs that meet their hypotheses.
mod Dialect
mod Pagination
mod Mutation
mod Runtime
mod Tracker
mod Requests
mod Relay
mod EventStore
mod Transaction
