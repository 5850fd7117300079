-- ===== src/Orchestrator.antt =====
-- internal/probe/orchestrator.go: the workers that run the probes of a plan.
pub mod Counting
pub mod Outcome
pub mod Scheduler
pub mod Machine
pub mod Plan
pub mod Stack
pub mod Cascade
pub mod Release
pub mod Sound
pub mod Success
pub mod Failure
pub mod Invariant
pub mod Settling
pub mod Moves
pub mod Reached
pub mod Start
pub mod Compile
pub mod CompileNodes
pub mod Published
pub mod Safety
pub mod Once
pub mod Workers
pub mod Resolved
pub mod Progress
mod Tests
