-- ===== src/Cypher.antt =====
-- The read-only check of raw queries: src/app/api/graph/v1/cypher_read_only.py.
pub mod ReadOnly
pub mod Clauses
pub mod Decision
pub mod Examples
