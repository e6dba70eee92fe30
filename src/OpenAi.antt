-- ===== src/OpenAi.antt =====
-- The streamed answer of the adapter internal/adapter/openai.
pub mod Frames
pub mod Emitter
pub mod Legal
pub mod Calls
pub mod Endings
pub mod Complete
pub mod Outcome
mod Tests
