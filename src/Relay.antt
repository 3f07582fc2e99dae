-- ===== src/Relay.antt =====
-- relay.go: the relay that publishes an outbox, with the tables that outbox.go declares.
pub mod Table
pub mod Run
pub mod Batch
pub mod Exclusion
pub mod Claim
pub mod Publish
pub mod Order
pub mod Answered
pub mod Released
