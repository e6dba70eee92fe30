-- ===== src/Compress.antt =====
-- The compression of a transcript, internal/plugin/compress.
pub mod Message
pub mod Stages
pub mod Prune
pub mod Hook
pub mod Kept
pub mod Intact
pub mod Protected
pub mod Whole
pub mod Minimal
mod Tests
