-- ===== src/Sink.antt =====
-- The graph sink of the signals: src/connectors/consumers/sinks/neo4j_sink.py.
pub mod Ids
pub mod Resolve
pub mod Found
pub mod Asked
pub mod Batched
pub mod Handlers
pub mod Upsert
pub mod Merged
pub mod Canonical
pub mod Examples
