-- ===== src/Match.antt =====
-- The matching of devices against advisories (internal/match).
pub mod Fields
pub mod Compare
pub mod Candidate
pub mod Attach
pub mod Finding
pub mod Index
pub mod Run
