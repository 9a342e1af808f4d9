-- ===== src/Commands.antt =====
-- Commands to the producers: the connector registry's targets (src/domain/connector_registry.py),
-- the command rows and the API's operations on them (src/app/api/commands/v1/service.py), and the
-- publisher (src/common/command_n_control/publisher.py).
pub mod Registry
pub mod Row
pub mod Publisher
pub mod Service
pub mod Creation
pub mod Lifecycle
pub mod Listing
pub mod Examples
