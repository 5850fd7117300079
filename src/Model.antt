-- ===== src/Model.antt =====
-- internal/model: the data that evidence, capabilities and requirements are made of.
pub mod Errors
pub mod States
pub mod Scope
pub mod CapabilityId
pub mod Identity
pub mod Ranges
pub mod Execution
pub mod Evidence
pub mod Observation
pub mod Capability
