-- ===== src/Generate.antt =====
-- The generator of ioriot/src/generate, which turns a capture into a .replay file.
pub mod PathMap
pub mod State
pub mod DataRange
pub mod Vsize
pub mod Task
pub mod Process
pub mod Gioop
pub mod Opcodes
pub mod Parser
pub mod Print
pub mod Header
pub mod Section
