-- ===== src/Daemon/Reconcile.antt =====
-- What the daemon achieves when its requests get through
-- (src/connectors/producers/daemon_common.py): no exited child, cancelled scan or finished scan leaves
-- its command open.
pub mod Delivered
pub mod Exits
pub mod Cancelled
