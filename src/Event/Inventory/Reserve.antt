-- ===== src/Event/Inventory/Reserve.antt =====
-- `processReserveSeatsMessage`.
pub mod Spec
pub mod Steps
pub mod Contract
