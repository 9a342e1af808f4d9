-- ===== src/Scheduler.antt =====
-- The scheduler of automated scans: src/app/scheduler.py.
pub mod Lease
pub mod Due
pub mod Tick
pub mod Exclusive
pub mod Selection
pub mod Quiet
pub mod Examples
