-- ===== src/Evaluation.antt =====
-- internal/capability/registry.go: the registry of capability definitions and their evaluation.
pub mod Registry
pub mod Evaluate
pub mod Order
pub mod Matched
pub mod Loop
pub mod Candidate
pub mod Guarantee
pub mod Answers
mod Tests
