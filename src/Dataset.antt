-- ===== src/Dataset.antt =====
-- ValidateDataset of internal/capability/graph.go.
pub mod Index
pub mod Check
pub mod Steps
pub mod Observed
pub mod Accepted
pub mod Edges
pub mod Sound
mod Tests
