-- ===== src/Capture.antt =====
-- The raw-frame capture of internal/capture.
pub mod Truncate
pub mod Ring
pub mod Reads
pub mod Pushes
pub mod Refine
pub mod Controller
mod Tests
