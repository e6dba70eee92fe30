-- ===== src/Catalog.antt =====
-- The model catalog of internal/pool/catalog.go.
pub mod Models
pub mod Store
pub mod Sets
pub mod Shrink
pub mod Clean
mod Tests
