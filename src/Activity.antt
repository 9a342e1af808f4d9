-- ===== src/Activity.antt =====
-- The activity timeline: src/connectors/consumers/activity_writer.py, and the consumer of
-- src/connectors/consumers/main.py that feeds it.
pub mod Signal
pub mod Postgres
pub mod Batching
pub mod Consumer
pub mod Once
pub mod Stored
pub mod Bounded
pub mod Conserved
pub mod Examples
