-- ===== src/Graph.antt =====
-- The API of the graph view: src/app/api/graph/v1.
pub mod Values
pub mod Extract
pub mod Service
pub mod Tidy
pub mod Closed
pub mod Rendered
pub mod Documents
pub mod Resolved
pub mod Answered
pub mod Examples
