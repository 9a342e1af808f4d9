-- ===== src/Retry.antt =====
-- Retries of API calls: src/connectors/producers/github/retry_with_backoff.py.
pub mod Policy
pub mod Deadline
pub mod Examples
