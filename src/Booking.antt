-- ===== src/Booking.antt =====
-- services/booking-service: the bookings of users, and the messages that settle them.
pub mod Types
pub mod Repository
pub mod Rows
pub mod Effects
pub mod Confirm
pub mod Fail
pub mod App
pub mod Cancel
pub mod Lifecycle
mod Tests
pub mod Idempotency
pub mod Service
pub mod Consumers
pub mod Messaging
