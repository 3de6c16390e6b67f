-- ===== src/Booking/Fail/Delivery.antt =====
-- Deliveries of seat-reservation-failed messages: again, in time, and with the event's id in upper case.
use event_booking_system_mic.Sql.{Sql}
use event_booking_system_mic.Common.{
  ℕ, Outcome, is_some, ◌≡◌, true, some, ok, arith, none, false, throws, Option-cases, refl, inl,
  inr, ◌≢◌,
}
use event_booking_system_mic.Booking.Repository.Settle.{
  process_seat_reservation_failed_message, fail_booking, set_status, move_booking,
}
use event_booking_system_mic.Booking.Types.{
  SeatReservationFailedInput, BookingDb, BookingRecord, processed_schema, booking_schema,
  ProcessSeatReservationFailedResult, event_mismatch,
}
use event_booking_system_mic.Errors.{Thrown}
use event_booking_system_mic.Booking.Fail.Steps.{matches, fail_misspelt}
use event_booking_system_mic.Booking.Repository.Create.{queue_event}
use event_booking_system_mic.Booking.Effects.{is_queued}
use event_booking_system_mic.Booking.Rows.{
  rest-move_booking, mark_processed_effect, mark_processed-fresh, find-move_booking,
}
use event_booking_system_mic.Booking.Repository.Rows.{map_row}
use event_booking_system_mic.Contracts.{BookingStatus}
use event_booking_system_mic.Booking.Fail.Contract.{
  process_fresh, process_seat_reservation_failed-Fails, process_seat_reservation_failed-duplicate,
  Fails,
}

module _ (sql : Sql) where
  fail_booking-processed :
      (now : ℕ) (input : SeatReservationFailedInput) (db : BookingDb sql)
      {r : ProcessSeatReservationFailedResult} {db' : BookingDb sql}
      → fail_booking sql now input db ≡ ok (r, db')
      → db'.processed_messages ≡ db.processed_messages
  unfolding fail_booking move_booking queue_event
  fail_booking-processed now input db h = ground arith

  -- A delivery that did not throw marks its message, whatever it answered.
  pub process_seat_reservation_failed-marks :
      (now : ℕ) (input : SeatReservationFailedInput) (db : BookingDb sql)
      {r : ProcessSeatReservationFailedResult} {db' : BookingDb sql}
      → process_seat_reservation_failed_message sql now input db ≡ (ok r, db')
      → is_some (sql.find processed_schema input.message_id db'.processed_messages) ≡ true
  process_seat_reservation_failed-marks now input db {r} {db'} h =
      elim (Option-cases (sql.find processed_schema input.message_id db.processed_messages)) [
        | inl e ↦
            let (rows, m) = mark_processed-fresh sql now input.message_id db e in
            let marked = record db { processed_messages = rows } in
            ground (
              arith,
              process_fresh sql now input db marked m,
              fail_booking-processed now input marked {r = r} {db' = db'},
              mark_processed_effect sql now input.message_id db {db' = marked} m,
            )
        | inr (_, e) ↦
            ground (arith, process_seat_reservation_failed-duplicate sql now input db (rw e))
      ]

  -- Redelivery: whatever the first delivery of a message answered, a second one, at any later
  -- time and with any contents, is a duplicate and changes nothing.
  pub process_seat_reservation_failed_twice :
      (now : ℕ) (input : SeatReservationFailedInput) (db : BookingDb sql)
      {r : ProcessSeatReservationFailedResult} {db' : BookingDb sql}
      → process_seat_reservation_failed_message sql now input db ≡ (ok r, db')
      → (later : ℕ) (again : SeatReservationFailedInput) → again.message_id ≡ input.message_id
      → process_seat_reservation_failed_message sql later again db'
        ≡ (ok ProcessSeatReservationFailedResult.duplicate, db')
  process_seat_reservation_failed_twice now input db {r} {db'} h later again same =
      process_seat_reservation_failed-duplicate sql later again db'
        (rw same (process_seat_reservation_failed-marks now input db {r = r} h))

  failed_of_Fails :
      (now : ℕ) (input : SeatReservationFailedInput) (db : BookingDb sql) (b : BookingRecord)
      (end : Outcome Thrown ProcessSeatReservationFailedResult × BookingDb sql)
      → sql.find processed_schema input.message_id db.processed_messages ≡ none
      → sql.find booking_schema input.booking_id db.bookings ≡ some b
      → matches input b ≡ true
      → is_queued sql input.outbox_on_failure db ≡ false
      → Fails sql now input db end
      → end.0
        ≡ ok (
            ProcessSeatReservationFailedResult.failed
              (map_row (set_status BookingStatus.failed now b))
              input.outbox_on_failure.id)
  failed_of_Fails now input db b (ok ProcessSeatReservationFailedResult.duplicate, after) f e m q
        c =
      ground arith
  failed_of_Fails now input db b (ok (ProcessSeatReservationFailedResult.failed d i), after) f e m q
        c =
      ground (arith, c.1.found, c.3, c.4)
  failed_of_Fails now input db b (ok (ProcessSeatReservationFailedResult.rejected d), after) f e m q
        c =
      ground arith
  failed_of_Fails now input db b (throws t, after) f e m q c = ground arith

  -- Progress: a new message for a pending booking that it fits fails the booking, unless the
  -- event that would be queued is in the outbox already.
  pub process_seat_reservation_failed_fails :
      (now : ℕ) (input : SeatReservationFailedInput) (db : BookingDb sql) (b : BookingRecord)
      → input.event_id.spelling ≡ 0
      → sql.find processed_schema input.message_id db.processed_messages ≡ none
      → sql.find booking_schema input.booking_id db.bookings ≡ some b
      → matches input b ≡ true
      → is_queued sql input.outbox_on_failure db ≡ false
      → (process_seat_reservation_failed_message sql now input db).0
        ≡ ok (
            ProcessSeatReservationFailedResult.failed
              (map_row (set_status BookingStatus.failed now b))
              input.outbox_on_failure.id)
  process_seat_reservation_failed_fails now input db b s f e m q =
      failed_of_Fails now input db b (process_seat_reservation_failed_message sql now input db) f e
        m q (process_seat_reservation_failed-Fails sql now input db s)

  -- A new message that fits a pending booking but spells the event's id otherwise than the database
  -- does: the booking is FAILED in the database, the answer is that it was refused for its event,
  -- and no event is queued.
  pub process_seat_reservation_failed_misspelt :
      (now : ℕ) (input : SeatReservationFailedInput) (db : BookingDb sql) (b : BookingRecord)
      → input.event_id.spelling ≢ 0
      → sql.find processed_schema input.message_id db.processed_messages ≡ none
      → sql.find booking_schema input.booking_id db.bookings ≡ some b
      → matches input b ≡ true
      → let (r, after) = process_seat_reservation_failed_message sql now input db in
        (r ≡ ok (ProcessSeatReservationFailedResult.rejected event_mismatch))
        × (sql.find booking_schema input.booking_id after.bookings
            ≡ some (set_status BookingStatus.failed now b))
        × (after.outbox ≡ db.outbox)
  process_seat_reservation_failed_misspelt now input db b s f e m =
      let (rows, marked) = mark_processed-fresh sql now input.message_id db f in
      let db' = record db { processed_messages = rows } in
      rw (process_fresh sql now input db db' marked, fail_misspelt sql now input db' b e m s)
        (
          refl,
          ground (
            arith,
            find-move_booking sql input.booking_id (matches input) BookingStatus.failed now db'
                input.booking_id,
          ),
          (rest-move_booking sql input.booking_id (matches input) BookingStatus.failed now db').2,
        )
