-- ===== src/Platform.antt =====
-- internal/platform: bounded reading.
pub mod Reading
pub mod Bounds
pub mod Exact
pub mod Path
pub mod Subpath
pub mod MemoryPath
pub mod Split
pub mod Parts
pub mod MemoryReader
pub mod Within
pub mod Confined
pub mod Found
pub mod WalkEnds
pub mod Inside
pub mod Below
mod Tests
mod PathTests
