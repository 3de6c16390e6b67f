-- ===== src/Booking/Repository.antt =====
-- `PrismaBookingRepository`, services/booking-service/src/modules/bookings/booking.repository.ts.
-- Every operation takes the instant `now` at which it runs; a method of one transaction is one step.
pub mod Rows
pub mod Create
pub mod Settle
pub mod Queries
