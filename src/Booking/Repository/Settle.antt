-- ===== src/Booking/Repository/Settle.antt =====
-- The transactions that settle a booking: `processSeatsReservedMessage`,
-- `processSeatReservationFailedMessage`, `cancelBookingWithOutbox`, and `updateStatus`.
use event_booking_system_mic.Common.{
  ℕ, Bool, not, ◌&&◌, ◌||◌, Option, none, some, [], ◌∷◌, ◌==◌, is_empty, Outcome, ok, transaction,
  if◌then◌else◌,
}
use event_booking_system_mic.Contracts.{
  UuidText, canonical, text_eq, BookingStatus, pending, confirmed, failed, cancelled,
}
use event_booking_system_mic.Errors.{Thrown}
use event_booking_system_mic.Sql.{Sql, always}
use event_booking_system_mic.Booking.Types.{
  BookingRecord, BookingDto, BookingDb, ProcessSeatsReservedResult,
  ProcessSeatReservationFailedResult, CancelBookingResult, SeatsReservedInput,
  SeatReservationFailedInput, CancelBookingInput, booking_not_found, invalid_status, booking_schema,
  processed_schema,
}
use event_booking_system_mic.Booking.Repository.Rows.{map_row, status_eq, classify_booking_failure}
use event_booking_system_mic.Booking.Repository.Create.{queue_event}

abbrev pub set_status : BookingStatus → ℕ → BookingRecord → BookingRecord
set_status status now b = record b { status = status; updated_at = now }

-- The rest of the `where` of each `updateMany`, which also fixes the id.
unfoldable pub is_pending_for : UuidText → ℕ → BookingRecord → Bool
is_pending_for event_id quantity b =
    b.event_id == event_id.value && (b.quantity == quantity && status_eq b.status pending)

unfoldable pub is_pending_at : UuidText → BookingRecord → Bool
is_pending_at event_id b = b.event_id == event_id.value && status_eq b.status pending

unfoldable pub is_confirmed : BookingRecord → Bool
is_confirmed b = status_eq b.status confirmed

module _ (sql : Sql) where
  -- `processedBookingMessage.create`; `none` is its unique constraint error.
  unfoldable pub mark_processed : ℕ → ℕ → BookingDb sql → Option (BookingDb sql)
  mark_processed now message_id db =
      elim (sql.create processed_schema (record { message_id = message_id; processed_at = now })
        db.processed_messages) [
          | none ↦ none
          | some rows ↦ some (record db { processed_messages = rows })
        ]

  -- `booking.updateMany` on one id: the database after it, and `count === 0`
  unfoldable pub move_booking :
      ℕ → (BookingRecord → Bool) → BookingStatus → ℕ → BookingDb sql → BookingDb sql × Bool
  move_booking id p status now db =
      let (bookings, rows) = sql.update booking_schema id p (set_status status now) db.bookings in
      (record db { bookings = bookings }, is_empty rows)

  -- From `updateMany` to the end of `processSeatsReservedMessage`.
  unfoldable pub confirm_booking :
      ℕ
      → SeatsReservedInput
      → BookingDb sql
      → Outcome Thrown (ProcessSeatsReservedResult × BookingDb sql)
  confirm_booking now input db =
      let (db', none_moved) =
        move_booking input.booking_id (is_pending_for input.event_id input.quantity) confirmed now
          db in
      elim (sql.find booking_schema input.booking_id db'.bookings) [
        | none ↦ ok (ProcessSeatsReservedResult.rejected booking_not_found, db')
        | some b ↦
            if none_moved
              || (not (text_eq (canonical b.event_id) input.event_id)
                  || not (b.quantity == input.quantity))
            then ok (
              ProcessSeatsReservedResult.rejected (
                  classify_booking_failure (some (map_row b)) input.event_id (some input.quantity)
                    (some pending)),
              db',
            )
            else queue_event sql now input.outbox_on_success
                (ProcessSeatsReservedResult.confirmed (map_row b) input.outbox_on_success.id) db'
      ]

  unfoldable pub process_seats_reserved_message :
      ℕ
      → SeatsReservedInput
      → BookingDb sql
      → Outcome Thrown ProcessSeatsReservedResult × BookingDb sql
  process_seats_reserved_message now input = transaction λ tx.
      elim (mark_processed now input.message_id tx) [
        | none ↦ ok (ProcessSeatsReservedResult.duplicate, tx)
        | some tx' ↦ confirm_booking now input tx'
      ]

  -- From `updateMany` to the end of `processSeatReservationFailedMessage`.
  unfoldable pub fail_booking :
      ℕ
      → SeatReservationFailedInput
      → BookingDb sql
      → Outcome Thrown (ProcessSeatReservationFailedResult × BookingDb sql)
  fail_booking now input db =
      let (db', none_moved) =
        move_booking input.booking_id (is_pending_at input.event_id) failed now db in
      elim (sql.find booking_schema input.booking_id db'.bookings) [
        | none ↦ ok (ProcessSeatReservationFailedResult.rejected booking_not_found, db')
        | some b ↦
            if none_moved || not (text_eq (canonical b.event_id) input.event_id)
            then ok (
              ProcessSeatReservationFailedResult.rejected
                  (classify_booking_failure (some (map_row b)) input.event_id none (some pending)),
              db',
            )
            else queue_event sql now input.outbox_on_failure
                (ProcessSeatReservationFailedResult.failed (map_row b) input.outbox_on_failure.id)
                db'
      ]

  unfoldable pub process_seat_reservation_failed_message :
      ℕ
      → SeatReservationFailedInput
      → BookingDb sql
      → Outcome Thrown ProcessSeatReservationFailedResult × BookingDb sql
  process_seat_reservation_failed_message now input = transaction λ tx.
      elim (mark_processed now input.message_id tx) [
        | none ↦ ok (ProcessSeatReservationFailedResult.duplicate, tx)
        | some tx' ↦ fail_booking now input tx'
      ]

  -- The body of the transaction of `cancelBookingWithOutbox`.
  unfoldable pub cancel_booking :
      ℕ → CancelBookingInput → BookingDb sql → Outcome Thrown (CancelBookingResult × BookingDb sql)
  cancel_booking now input db =
      let (db', none_moved) = move_booking input.id is_confirmed cancelled now db in
      elim (sql.find booking_schema input.id db'.bookings) [
        | none ↦ ok (CancelBookingResult.rejected booking_not_found, db')
        | some b ↦
            if none_moved
            then ok (CancelBookingResult.rejected invalid_status, db')
            else queue_event sql now input.outbox
                (CancelBookingResult.cancelled (map_row b) input.outbox.id) db'
      ]

  unfoldable pub cancel_booking_with_outbox :
      ℕ → CancelBookingInput → BookingDb sql → Outcome Thrown CancelBookingResult × BookingDb sql
  cancel_booking_with_outbox now input = transaction (cancel_booking now input)

  -- `updateStatus`: whatever `update` throws is answered by null.
  unfoldable pub update_status :
      ℕ → ℕ → BookingStatus → BookingDb sql → Option BookingDto × BookingDb sql
  update_status now id status db =
      elim (sql.update booking_schema id always (set_status status now) db.bookings).1 [
        | [] ↦ (none, db)
        | b ∷ _ ↦ (
          some (map_row b),
          record db {
            bookings = (sql.update booking_schema id always (set_status status now) db.bookings).0;
          },
        )
      ]
