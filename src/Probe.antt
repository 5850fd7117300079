-- ===== src/Probe.antt =====
-- internal/probe: the registry of probes and its execution plan.
pub mod Sort
pub mod Execution
pub mod Registry
pub mod Tables
pub mod Invariant
pub mod Plan
pub mod Resolve
pub mod Machine
pub mod Samples
mod Tests
