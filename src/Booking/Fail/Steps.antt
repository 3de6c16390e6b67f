-- ===== src/Booking/Fail/Steps.antt =====
-- What `processSeatReservationFailedMessage` computes once its message is marked, branch by branch.
-- The condition of the `updateMany`.
use event_booking_system_mic.Sql.{Sql}
use event_booking_system_mic.Booking.Types.{
  SeatReservationFailedInput, BookingRecord, BookingProcessingFailureReason, BookingDb,
  booking_schema, ProcessSeatReservationFailedResult, booking_not_found, event_mismatch,
}
use event_booking_system_mic.Common.{
  ◌==◌, ◌&&◌, ℕ, Bool, some, ◌≡◌, false, true, none, ok, ◌≢◌, arith,
}
use event_booking_system_mic.Booking.Repository.Settle.{
  move_booking, is_pending_at, fail_booking, set_status,
}
use event_booking_system_mic.Booking.Repository.Rows.{status_eq, classify_booking_failure, map_row}
use event_booking_system_mic.Booking.Repository.Create.{queue_event}
use event_booking_system_mic.Booking.Rows.{find-move_booking, none_moved-move_booking}
use event_booking_system_mic.Contracts.{BookingStatus}

abbrev pub matches : SeatReservationFailedInput → BookingRecord → Bool
matches input b = b.event_id == input.event_id.value && status_eq b.status BookingStatus.pending

-- The reason that is given for a booking.
abbrev pub reason_for : SeatReservationFailedInput → BookingRecord → BookingProcessingFailureReason
reason_for input b =
    classify_booking_failure (some (map_row b)) input.event_id none (some BookingStatus.pending)

module _ (sql : Sql) where
  abbrev pub after_move : ℕ → SeatReservationFailedInput → BookingDb sql → BookingDb sql
  after_move now input db =
      (move_booking sql input.booking_id (matches input) BookingStatus.failed now db).0

  module _ (now : ℕ) (input : SeatReservationFailedInput) (db : BookingDb sql) where
    pub fail_missing :
        sql.find booking_schema input.booking_id db.bookings ≡ none
        → fail_booking sql now input db
          ≡ ok (
            ProcessSeatReservationFailedResult.rejected booking_not_found,
            (after_move now input db),
          )
    unfolding fail_booking is_pending_at
    fail_missing e = ground (
      arith,
      find-move_booking sql input.booking_id (matches input) BookingStatus.failed now db
          input.booking_id,
    )

    pub fail_refused :
        (b : BookingRecord)
        → sql.find booking_schema input.booking_id db.bookings ≡ some b
        → matches input b ≡ false
        → fail_booking sql now input db
          ≡ ok (
            ProcessSeatReservationFailedResult.rejected (reason_for input b),
            (after_move now input db),
          )
    unfolding fail_booking is_pending_at
    fail_refused b e m = ground (
      arith,
      find-move_booking sql input.booking_id (matches input) BookingStatus.failed now db
          input.booking_id,
      none_moved-move_booking sql input.booking_id (matches input) BookingStatus.failed now db,
    )

    pub fail_pending :
        (b : BookingRecord)
        → sql.find booking_schema input.booking_id db.bookings ≡ some b
        → matches input b ≡ true
        → input.event_id.spelling ≡ 0
        → fail_booking sql now input db
          ≡ queue_event sql now input.outbox_on_failure
              (ProcessSeatReservationFailedResult.failed
                (map_row (set_status BookingStatus.failed now b))
                input.outbox_on_failure.id)
              (after_move now input db)
    unfolding fail_booking is_pending_at
    fail_pending b e m s = ground (
      arith,
      find-move_booking sql input.booking_id (matches input) BookingStatus.failed now db
          input.booking_id,
      none_moved-move_booking sql input.booking_id (matches input) BookingStatus.failed now db,
    )

    pub fail_misspelt :
        (b : BookingRecord)
        → sql.find booking_schema input.booking_id db.bookings ≡ some b
        → matches input b ≡ true
        → input.event_id.spelling ≢ 0
        → fail_booking sql now input db
          ≡ ok (
            ProcessSeatReservationFailedResult.rejected event_mismatch,
            (after_move now input db),
          )
    unfolding fail_booking is_pending_at classify_booking_failure
    fail_misspelt b e m s = ground (
      arith,
      find-move_booking sql input.booking_id (matches input) BookingStatus.failed now db
          input.booking_id,
      none_moved-move_booking sql input.booking_id (matches input) BookingStatus.failed now db,
    )
