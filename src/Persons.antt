-- ===== src/Persons.antt =====
-- Resolving people: the session cache of src/connectors/commons/person_cache.py.
pub mod Graph
pub mod Cache
pub mod Resolve
pub mod Identities
pub mod Remembered
pub mod Coherence
pub mod Reroute
pub mod Examples
