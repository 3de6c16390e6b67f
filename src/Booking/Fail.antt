-- ===== src/Booking/Fail.antt =====
-- `processSeatReservationFailedMessage`: its contract, and how deliveries of messages end.
pub mod Steps
pub mod Contract
pub mod Delivery
