-- ===== src/Acp.antt =====
-- The client of the worker's protocol, internal/acp.
pub mod Stream
pub mod Settled
pub mod Delivery
pub mod Closes
pub mod Dispatcher
pub mod Pending
pub mod Answered
pub mod Replies
mod Tests
