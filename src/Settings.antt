-- ===== src/Settings.antt =====
-- The runtime settings: src/app/api/settings/v1/service.py with src/common/runtime_settings.
pub mod Config
pub mod Table
pub mod Source
pub mod Service
pub mod Build
pub mod Collected
pub mod Effective
pub mod Requests
pub mod Outcomes
pub mod Lost
pub mod Reads
pub mod Masked
pub mod Examples
