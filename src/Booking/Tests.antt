-- ===== src/Booking/Tests.antt =====
-- Bookings on tables that are lists: the theorems of the booking service at concrete inputs, and runs
-- of its operations.
use event_booking_system_mic.Booking.Confirm.Delivery.{
  process_seats_reserved_confirms, process_seats_reserved_twice, process_seats_reserved_misspelt,
}
use event_booking_system_mic.Booking.Confirm.Contract.{Confirms, process_seats_reserved-Confirms}
use event_booking_system_mic.Sql.ListTables.{list_tables}
use event_booking_system_mic.Common.{ℕ, ◌≡◌, ◌∷◌, none, ok, [], refl, some, arith}
use event_booking_system_mic.Booking.Types.{
  BookingDb, SeatsReservedInput, CancelBookingInput, SeatReservationFailedInput, BookingRecord,
  ProcessSeatsReservedResult, BookingProcessingFailureReason, booking_schema, CancelBookingResult,
}
use event_booking_system_mic.Contracts.{
  UuidText, Message, canonical, BookingStatus, Topic, FailureReason, Payload,
}
use event_booking_system_mic.Booking.Lifecycle.Traces.{Reach, Step}
use event_booking_system_mic.Booking.Repository.Settle.{
  cancel_booking, process_seats_reserved_message, is_pending_for, set_status, mark_processed,
  confirm_booking, move_booking, cancel_booking_with_outbox,
  process_seat_reservation_failed_message, is_confirmed,
}
use event_booking_system_mic.Booking.Repository.Rows.{map_row}
use event_booking_system_mic.Booking.Repository.Create.{queue_event}
use event_booking_system_mic.Booking.Lifecycle.Traces.{Reach, Lives, Reach-Lives}
use event_booking_system_mic.Booking.Cancel.{
  Cancels, cancel_booking_with_outbox-Cancels, cancel_booking_twice,
}
use event_booking_system_mic.Booking.Fail.Contract.{Fails, process_seat_reservation_failed-Fails}
use event_booking_system_mic.Booking.Effects.{Untouched}

abbrev message : ℕ → Message
message id = record {
  event_id = none;
  message_id = id;
  correlation_id = 1;
  timestamp = 50;
  version = 1;
  payload =
      Payload.booking_confirmed (record { booking_id = 1; event_id = canonical 9; quantity = 2 });
}

abbrev booking : ℕ → BookingStatus → BookingRecord
booking id status = record {
  id = id;
  user_id = 7;
  event_id = 9;
  quantity = 2;
  status = status;
  idempotency_key = none;
  created_at = 10;
  updated_at = 10;
}

-- Booking 1 is pending, booking 2 is confirmed.
abbrev bookings : BookingDb list_tables
bookings = record {
  bookings = booking 1 BookingStatus.pending ∷ booking 2 BookingStatus.confirmed ∷ [];
  idempotency_keys = [];
  processed_messages = [];
  outbox = [];
}

abbrev reserved_for : ℕ → UuidText → SeatsReservedInput
reserved_for id event_id = record {
  message_id = 40;
  booking_id = id;
  event_id = event_id;
  quantity = 2;
  outbox_on_success = record { id = 60; topic = Topic.booking_confirmed; message = message 61 };
}

abbrev failed_for : ℕ → UuidText → SeatReservationFailedInput
failed_for id event_id = record {
  message_id = 41;
  booking_id = id;
  event_id = event_id;
  reason = FailureReason.insufficient_seats;
  outbox_on_failure = record { id = 62; topic = Topic.booking_failed; message = message 63 };
}

abbrev cancel_of : ℕ → CancelBookingInput
cancel_of id = record {
  id = id;
  outbox = record { id = 64; topic = Topic.booking_cancelled; message = message 65 };
}

-- The id of event 9 in upper case.
abbrev upper_case : UuidText
upper_case = record { value = 9; spelling = 1 }

process_seats_reserved-Confirms_example :
    Confirms list_tables 50
      (reserved_for 1 (canonical 9))
      bookings
      (process_seats_reserved_message list_tables 50 (reserved_for 1 (canonical 9)) bookings)
process_seats_reserved-Confirms_example =
    process_seats_reserved-Confirms list_tables 50 (reserved_for 1 (canonical 9)) bookings refl

process_seats_reserved_confirms_example :
    (process_seats_reserved_message list_tables 50 (reserved_for 1 (canonical 9)) bookings).0
    ≡ ok (
        ProcessSeatsReservedResult.confirmed
          (map_row (set_status BookingStatus.confirmed 50 (booking 1 BookingStatus.pending)))
          60)
unfolding is_pending_for
process_seats_reserved_confirms_example =
    process_seats_reserved_confirms list_tables 50 (reserved_for 1 (canonical 9)) bookings
      (booking 1 BookingStatus.pending) refl refl refl refl refl

abbrev confirmed_once : BookingDb list_tables
confirmed_once =
    (process_seats_reserved_message list_tables 50 (reserved_for 1 (canonical 9)) bookings).1

process_seats_reserved_twice_example :
    process_seats_reserved_message list_tables 70 (reserved_for 2 (canonical 9)) confirmed_once
    ≡ (ok ProcessSeatsReservedResult.duplicate, confirmed_once)
process_seats_reserved_twice_example =
    process_seats_reserved_twice list_tables 50 (reserved_for 1 (canonical 9)) bookings
      {r = ProcessSeatsReservedResult.confirmed
        (map_row (set_status BookingStatus.confirmed 50 (booking 1 BookingStatus.pending))) 60}
      {db' = confirmed_once}
      (unfold process_seats_reserved_message mark_processed confirm_booking move_booking queue_event
          is_pending_for in
        refl)
      70 (reserved_for 2 (canonical 9)) refl

process_seats_reserved_misspelt_example :
    let (r, after) =
      process_seats_reserved_message list_tables 50 (reserved_for 1 upper_case) bookings in
    (r ≡ ok (ProcessSeatsReservedResult.rejected BookingProcessingFailureReason.event_mismatch))
    × (list_tables.find booking_schema 1 after.bookings
        ≡ some (set_status BookingStatus.confirmed 50 (booking 1 BookingStatus.pending)))
    × (after.outbox ≡ [])
unfolding is_pending_for
process_seats_reserved_misspelt_example =
    process_seats_reserved_misspelt list_tables 50 (reserved_for 1 upper_case) bookings
      (booking 1 BookingStatus.pending) (omega arith) refl refl refl

process_seat_reservation_failed-Fails_example :
    Fails list_tables 50
      (failed_for 1 (canonical 9))
      bookings
      (process_seat_reservation_failed_message list_tables 50 (failed_for 1 (canonical 9)) bookings)
process_seat_reservation_failed-Fails_example =
    process_seat_reservation_failed-Fails list_tables 50 (failed_for 1 (canonical 9)) bookings refl

cancel_booking_with_outbox-Cancels_example :
    Cancels list_tables 50
      (cancel_of 2)
      bookings
      (cancel_booking_with_outbox list_tables 50 (cancel_of 2) bookings)
cancel_booking_with_outbox-Cancels_example =
    cancel_booking_with_outbox-Cancels list_tables 50 (cancel_of 2) bookings

abbrev cancelled_once : BookingDb list_tables
cancelled_once = (cancel_booking_with_outbox list_tables 50 (cancel_of 2) bookings).1

cancel_booking_twice_example :
    let (r, after) = cancel_booking_with_outbox list_tables 80 (cancel_of 2) cancelled_once in
    (r ≡ ok (CancelBookingResult.rejected BookingProcessingFailureReason.invalid_status))
    × Untouched list_tables cancelled_once after
cancel_booking_twice_example =
    cancel_booking_twice list_tables 50 (cancel_of 2) bookings
      {dto = map_row (set_status BookingStatus.cancelled 50 (booking 2 BookingStatus.confirmed))}
      {row = 64} {db' = cancelled_once}
      (unfold cancel_booking_with_outbox cancel_booking move_booking queue_event is_confirmed in
        refl)
      80 (cancel_of 2) refl

-- Booking 1 is confirmed, and then it is cancelled.
abbrev history :
    Reach list_tables bookings
      (cancel_booking_with_outbox list_tables 80 (cancel_of 1) confirmed_once).1
history =
    Reach.next (Reach.next Reach.here (Step.seats_reserved 50 (reserved_for 1 (canonical 9)) refl))
      (Step.cancel 80 (cancel_of 1) refl)

Reach-Lives_example :
    Lives list_tables
      (booking 1 BookingStatus.pending)
      1
      (cancel_booking_with_outbox list_tables 80 (cancel_of 1) confirmed_once).1
Reach-Lives_example =
    Reach-Lives list_tables (booking 1 BookingStatus.pending) 1 {s = bookings}
      {t = (cancel_booking_with_outbox list_tables 80 (cancel_of 1) confirmed_once).1} refl history
