-- ===== src/Plugin.antt =====
-- The plugins, internal/plugin.
pub mod Chain
pub mod Allowed
pub mod Spans
pub mod Disjoint
mod Tests
