-- ===== src/Session.antt =====
-- The registry of dedicated sessions, internal/session.
pub mod Registry
pub mod Machine
pub mod Bounds
pub mod Emptied
pub mod Handout
pub mod Evolves
pub mod Teardown
pub mod Workers
pub mod Tracking
pub mod Publish
pub mod Creations
pub mod Accounted
mod Tests
