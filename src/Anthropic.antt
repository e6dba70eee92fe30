-- ===== src/Anthropic.antt =====
-- The streamed answer of the Anthropic adapter, internal/adapter/anthropic.
pub mod Frames
pub mod Emitter
pub mod Stream
pub mod Grammar
pub mod Blocks
pub mod Protocol
pub mod Ending
pub mod Legible
pub mod Hooks
pub mod Mirror
pub mod Aggregate
mod Tests
