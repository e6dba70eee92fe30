-- ===== src/Engine.antt =====
-- The engine, internal/engine.
pub mod ToolCalls
pub mod Dedup
mod Tests
