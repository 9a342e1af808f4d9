-- ===== src/Tokens.antt =====
-- The cached access token of the connector processes: src/common/auth/service_token.py.
pub mod Service
pub mod Freshness
pub mod Backoff
pub mod Examples
