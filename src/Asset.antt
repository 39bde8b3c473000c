-- ===== src/Asset.antt =====
-- The canonical asset model (internal/asset).
pub mod Identity
pub mod Addresses
