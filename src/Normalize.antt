-- ===== src/Normalize.antt =====
-- The reading and ordering of firmware versions, and the version ranges of the advisories
-- (internal/normalize).
pub mod Version
pub mod Schemes
pub mod Search
pub mod Constraint
pub mod Vers
pub mod Parse
pub mod Evaluate
pub mod Product
pub mod Lookup
