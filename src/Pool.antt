-- ===== src/Pool.antt =====
-- The worker pool of internal/pool.
pub mod State
pub mod Slots
pub mod Respawn
pub mod Release
pub mod Acquire
pub mod Sequence
pub mod Idle
pub mod Close
pub mod Machine
pub mod Weights
pub mod Conservation
pub mod Exclusive
pub mod Open
pub mod Lossless
pub mod Flight
pub mod SingleFlight
pub mod Barrier
pub mod Holds
pub mod Warmup
pub mod Ready
mod Tests
