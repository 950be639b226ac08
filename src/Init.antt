-- ===== src/Init.antt =====
-- The initialiser, which creates the files that a replay needs: ioriot/src/init.
pub mod Header
pub mod Lines
pub mod Covered
pub mod Ranges
pub mod Sections
pub mod Asked
pub mod Tasks
