-- ===== src/Config.antt =====
-- internal/config: configuration files.
pub mod Merge
pub mod Marks
pub mod Layers
mod Tests
