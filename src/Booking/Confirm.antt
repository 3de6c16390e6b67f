-- ===== src/Booking/Confirm.antt =====
-- `processSeatsReservedMessage`: its contract, and how deliveries of messages end.
pub mod Steps
pub mod Contract
pub mod Delivery
