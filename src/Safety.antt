-- ===== src/Safety.antt =====
-- The layer that decides whether a packet may be sent, and how slowly (internal/safety).
pub mod Risk
pub mod Exchange
pub mod Float
pub mod Policy
pub mod Deny
pub mod Audit
pub mod Grouping
pub mod World
pub mod State
pub mod Engine
