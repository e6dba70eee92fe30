-- ===== src/Privacy.antt =====
-- The privacy service, internal/privacy.
pub mod Ledger
pub mod Store
pub mod Entries
pub mod Service
pub mod Retained
pub mod Paired
pub mod Sound
pub mod Lifecycle
pub mod Mapping
pub mod Storing
pub mod Settings
pub mod Bounds
pub mod Roundtrip
pub mod Created
pub mod Candidates
mod Tests
