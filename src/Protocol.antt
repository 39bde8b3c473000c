-- ===== src/Protocol.antt =====
-- The wire formats that are read and written (internal/protocol).
pub mod Octets
pub mod Requests
pub mod Params
pub mod Registry
pub mod Reader
pub mod Observation
pub mod Decoding
pub mod Modbus
pub mod Enip
