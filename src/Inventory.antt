-- ===== src/Inventory.antt =====
-- The inventory of devices (internal/asset): the operations on one device, and the store of them.
pub mod Device
pub mod Store
pub mod Flows
