-- ===== src/Replay.antt =====
-- The replayer of ioriot/src/replay, which carries the calls of a .replay file out.
pub mod Lines
pub mod Threads
pub mod Header
pub mod Files
pub mod Ioop
pub mod Table
pub mod Sound
