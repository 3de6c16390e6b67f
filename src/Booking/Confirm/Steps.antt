-- ===== src/Booking/Confirm/Steps.antt =====
-- What `processSeatsReservedMessage` computes once its message is marked, branch by branch.
-- The condition of the `updateMany`.
use event_booking_system_mic.Sql.{Sql}
use event_booking_system_mic.Booking.Types.{
  SeatsReservedInput, BookingRecord, BookingProcessingFailureReason, BookingDb, booking_schema,
  ProcessSeatsReservedResult, booking_not_found, event_mismatch,
}
use event_booking_system_mic.Common.{
  ◌==◌, ◌&&◌, ℕ, Bool, some, ◌≡◌, false, true, none, ok, ◌≢◌, arith,
}
use event_booking_system_mic.Booking.Repository.Settle.{
  move_booking, is_pending_for, confirm_booking, set_status,
}
use event_booking_system_mic.Booking.Repository.Rows.{status_eq, classify_booking_failure, map_row}
use event_booking_system_mic.Booking.Repository.Create.{queue_event}
use event_booking_system_mic.Booking.Rows.{find-move_booking, none_moved-move_booking}
use event_booking_system_mic.Contracts.{BookingStatus}

abbrev pub matches : SeatsReservedInput → BookingRecord → Bool
matches input b =
    b.event_id == input.event_id.value
    && (b.quantity == input.quantity && status_eq b.status BookingStatus.pending)

-- The reason that is given for a booking.
abbrev pub reason_for : SeatsReservedInput → BookingRecord → BookingProcessingFailureReason
reason_for input b =
    classify_booking_failure (some (map_row b)) input.event_id (some input.quantity)
      (some BookingStatus.pending)

module _ (sql : Sql) where
  abbrev pub after_move : ℕ → SeatsReservedInput → BookingDb sql → BookingDb sql
  after_move now input db =
      (move_booking sql input.booking_id (matches input) BookingStatus.confirmed now db).0

  module _ (now : ℕ) (input : SeatsReservedInput) (db : BookingDb sql) where
    pub confirm_missing :
        sql.find booking_schema input.booking_id db.bookings ≡ none
        → confirm_booking sql now input db
          ≡ ok (ProcessSeatsReservedResult.rejected booking_not_found, (after_move now input db))
    unfolding confirm_booking is_pending_for
    confirm_missing e = ground (
      arith,
      find-move_booking sql input.booking_id (matches input) BookingStatus.confirmed now db
          input.booking_id,
    )

    pub confirm_refused :
        (b : BookingRecord)
        → sql.find booking_schema input.booking_id db.bookings ≡ some b
        → matches input b ≡ false
        → confirm_booking sql now input db
          ≡ ok (ProcessSeatsReservedResult.rejected (reason_for input b), (after_move now input db))
    unfolding confirm_booking is_pending_for
    confirm_refused b e m = ground (
      arith,
      find-move_booking sql input.booking_id (matches input) BookingStatus.confirmed now db
          input.booking_id,
      none_moved-move_booking sql input.booking_id (matches input) BookingStatus.confirmed now db,
    )

    pub confirm_pending :
        (b : BookingRecord)
        → sql.find booking_schema input.booking_id db.bookings ≡ some b
        → matches input b ≡ true
        → input.event_id.spelling ≡ 0
        → confirm_booking sql now input db
          ≡ queue_event sql now input.outbox_on_success
              (ProcessSeatsReservedResult.confirmed
                (map_row (set_status BookingStatus.confirmed now b))
                input.outbox_on_success.id)
              (after_move now input db)
    unfolding confirm_booking is_pending_for
    confirm_pending b e m s = ground (
      arith,
      find-move_booking sql input.booking_id (matches input) BookingStatus.confirmed now db
          input.booking_id,
      none_moved-move_booking sql input.booking_id (matches input) BookingStatus.confirmed now db,
    )

    pub confirm_misspelt :
        (b : BookingRecord)
        → sql.find booking_schema input.booking_id db.bookings ≡ some b
        → matches input b ≡ true
        → input.event_id.spelling ≢ 0
        → confirm_booking sql now input db
          ≡ ok (ProcessSeatsReservedResult.rejected event_mismatch, (after_move now input db))
    unfolding confirm_booking is_pending_for classify_booking_failure
    confirm_misspelt b e m s = ground (
      arith,
      find-move_booking sql input.booking_id (matches input) BookingStatus.confirmed now db
          input.booking_id,
      none_moved-move_booking sql input.booking_id (matches input) BookingStatus.confirmed now db,
    )
