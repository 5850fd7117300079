-- ===== src/Capability.antt =====
-- internal/capability: the resolution of evidence, the evidence graph and the registry of definitions.
pub mod Resolver
pub mod Selection
pub mod Levels
pub mod Choice
pub mod Joint
pub mod InOrder
pub mod Resolution
pub mod Validity
pub mod Topological
pub mod GraphBuild
pub mod GraphOrder
pub mod GraphKeys
mod GraphTests
mod Tests
