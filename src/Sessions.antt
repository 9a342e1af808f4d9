-- ===== src/Sessions.antt =====
-- The server-side login sessions: src/app/api/auth/v1/service.py over src/app/api/auth/v1/query.py.
pub mod Table
pub mod Rows
pub mod Paths
pub mod Guard
pub mod Keycloak
pub mod Login
pub mod Exchange
pub mod History
pub mod Steps
pub mod Unique
pub mod Revoked
pub mod Found
pub mod Verdict
pub mod Effect
pub mod Over
pub mod Rotation
pub mod Return
pub mod Opened
pub mod Examples
