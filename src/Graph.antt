-- ===== src/Graph.antt =====
-- The topological sort that internal/capability/graph.go and internal/probe/registry.go share in form:
-- Kahn's algorithm, for any order in which the nodes that are ready are taken.
pub mod Kahn
pub mod Maps
pub mod Rounds
pub mod Order
pub mod Sorting
pub mod Unique
pub mod Result
pub mod Position
