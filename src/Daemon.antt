-- ===== src/Daemon.antt =====
-- The producer daemon, its scan children and its test children
-- (src/connectors/producers/daemon_common.py).
pub mod World
pub mod ScanResult
pub mod State
pub mod Cancel
pub mod Loop
pub mod System
pub mod Safety
pub mod Capacity
pub mod Reconcile
pub mod Examples
