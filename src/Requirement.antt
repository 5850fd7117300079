-- ===== src/Requirement.antt =====
-- internal/requirement: the three-valued algebra, the requirement document and its evaluation.
pub mod Logic
pub mod Kleene
pub mod Node
pub mod Predicate
pub mod Evaluate
pub mod Tree
pub mod Accepting
pub mod Soundness
pub mod Fuel
pub mod Active
pub mod Completeness
pub mod Meaning
mod Tests
pub mod Backing
pub mod Knowledge
