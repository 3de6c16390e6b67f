-- ===== src/Booking/Lifecycle.antt =====
-- The life of a booking: the moves that the service's transactions make on `bookings`, and what holds
-- of a booking along any interleaving of them.
pub mod Moves
pub mod Transactions
pub mod Traces
