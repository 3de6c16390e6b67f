-- ===== src/Booking/Confirm/Delivery.antt =====
-- Deliveries of seats-reserved messages: again, in time, and with the event's id in upper case.
use event_booking_system_mic.Sql.{Sql}
use event_booking_system_mic.Common.{
  ℕ, Outcome, is_some, ◌≡◌, true, some, ok, arith, none, false, throws, Option-cases, refl, inl,
  inr, ◌≢◌,
}
use event_booking_system_mic.Booking.Repository.Settle.{
  process_seats_reserved_message, confirm_booking, set_status, move_booking,
}
use event_booking_system_mic.Booking.Types.{
  SeatsReservedInput, BookingDb, BookingRecord, processed_schema, booking_schema,
  ProcessSeatsReservedResult, event_mismatch,
}
use event_booking_system_mic.Errors.{Thrown}
use event_booking_system_mic.Booking.Confirm.Steps.{matches, confirm_misspelt}
use event_booking_system_mic.Booking.Repository.Create.{queue_event}
use event_booking_system_mic.Booking.Effects.{is_queued}
use event_booking_system_mic.Booking.Rows.{
  rest-move_booking, mark_processed_effect, mark_processed-fresh, find-move_booking,
}
use event_booking_system_mic.Booking.Repository.Rows.{map_row}
use event_booking_system_mic.Contracts.{BookingStatus}
use event_booking_system_mic.Booking.Confirm.Contract.{
  process_fresh, process_seats_reserved-Confirms, process_seats_reserved-duplicate, Confirms,
}

module _ (sql : Sql) where
  confirm_booking-processed :
      (now : ℕ) (input : SeatsReservedInput) (db : BookingDb sql) {r : ProcessSeatsReservedResult}
      {db' : BookingDb sql}
      → confirm_booking sql now input db ≡ ok (r, db')
      → db'.processed_messages ≡ db.processed_messages
  unfolding confirm_booking move_booking queue_event
  confirm_booking-processed now input db h = ground arith

  -- A delivery that did not throw marks its message, whatever it answered.
  pub process_seats_reserved-marks :
      (now : ℕ) (input : SeatsReservedInput) (db : BookingDb sql) {r : ProcessSeatsReservedResult}
      {db' : BookingDb sql}
      → process_seats_reserved_message sql now input db ≡ (ok r, db')
      → is_some (sql.find processed_schema input.message_id db'.processed_messages) ≡ true
  process_seats_reserved-marks now input db {r} {db'} h =
      elim (Option-cases (sql.find processed_schema input.message_id db.processed_messages)) [
        | inl e ↦
            let (rows, m) = mark_processed-fresh sql now input.message_id db e in
            let marked = record db { processed_messages = rows } in
            ground (
              arith,
              process_fresh sql now input db marked m,
              confirm_booking-processed now input marked {r = r} {db' = db'},
              mark_processed_effect sql now input.message_id db {db' = marked} m,
            )
        | inr (_, e) ↦ ground (arith, process_seats_reserved-duplicate sql now input db (rw e))
      ]

  -- Redelivery: whatever the first delivery of a message answered, a second one, at any later
  -- time and with any contents, is a duplicate and changes nothing.
  pub process_seats_reserved_twice :
      (now : ℕ) (input : SeatsReservedInput) (db : BookingDb sql) {r : ProcessSeatsReservedResult}
      {db' : BookingDb sql}
      → process_seats_reserved_message sql now input db ≡ (ok r, db')
      → (later : ℕ) (again : SeatsReservedInput) → again.message_id ≡ input.message_id
      → process_seats_reserved_message sql later again db'
        ≡ (ok ProcessSeatsReservedResult.duplicate, db')
  process_seats_reserved_twice now input db {r} {db'} h later again same =
      process_seats_reserved-duplicate sql later again db'
        (rw same (process_seats_reserved-marks now input db {r = r} h))

  confirmed_of_Confirms :
      (now : ℕ) (input : SeatsReservedInput) (db : BookingDb sql) (b : BookingRecord)
      (end : Outcome Thrown ProcessSeatsReservedResult × BookingDb sql)
      → sql.find processed_schema input.message_id db.processed_messages ≡ none
      → sql.find booking_schema input.booking_id db.bookings ≡ some b
      → matches input b ≡ true
      → is_queued sql input.outbox_on_success db ≡ false
      → Confirms sql now input db end
      → end.0
        ≡ ok (
            ProcessSeatsReservedResult.confirmed
              (map_row (set_status BookingStatus.confirmed now b))
              input.outbox_on_success.id)
  confirmed_of_Confirms now input db b (ok ProcessSeatsReservedResult.duplicate, after) f e m q c =
      ground arith
  confirmed_of_Confirms now input db b (ok (ProcessSeatsReservedResult.confirmed d i), after) f e m
        q c =
      ground (arith, c.1.found, c.3, c.4)
  confirmed_of_Confirms now input db b (ok (ProcessSeatsReservedResult.rejected d), after) f e m q
        c =
      ground arith
  confirmed_of_Confirms now input db b (throws t, after) f e m q c = ground arith

  -- A new message that fits a pending booking and spells the event's id as the database does
  -- confirms the booking, unless the event that would be queued is in the outbox already.
  pub process_seats_reserved_confirms :
      (now : ℕ) (input : SeatsReservedInput) (db : BookingDb sql) (b : BookingRecord)
      → input.event_id.spelling ≡ 0
      → sql.find processed_schema input.message_id db.processed_messages ≡ none
      → sql.find booking_schema input.booking_id db.bookings ≡ some b
      → matches input b ≡ true
      → is_queued sql input.outbox_on_success db ≡ false
      → (process_seats_reserved_message sql now input db).0
        ≡ ok (
            ProcessSeatsReservedResult.confirmed
              (map_row (set_status BookingStatus.confirmed now b))
              input.outbox_on_success.id)
  process_seats_reserved_confirms now input db b s f e m q =
      confirmed_of_Confirms now input db b (process_seats_reserved_message sql now input db) f e m q
        (process_seats_reserved-Confirms sql now input db s)

  -- A new message that fits a pending booking but spells the event's id otherwise than the database
  -- does: the booking is CONFIRMED in the database, the answer is that it was refused for its
  -- event, and no event is queued.
  pub process_seats_reserved_misspelt :
      (now : ℕ) (input : SeatsReservedInput) (db : BookingDb sql) (b : BookingRecord)
      → input.event_id.spelling ≢ 0
      → sql.find processed_schema input.message_id db.processed_messages ≡ none
      → sql.find booking_schema input.booking_id db.bookings ≡ some b
      → matches input b ≡ true
      → let (r, after) = process_seats_reserved_message sql now input db in
        (r ≡ ok (ProcessSeatsReservedResult.rejected event_mismatch))
        × (sql.find booking_schema input.booking_id after.bookings
            ≡ some (set_status BookingStatus.confirmed now b))
        × (after.outbox ≡ db.outbox)
  process_seats_reserved_misspelt now input db b s f e m =
      let (rows, marked) = mark_processed-fresh sql now input.message_id db f in
      let db' = record db { processed_messages = rows } in
      rw (process_fresh sql now input db db' marked, confirm_misspelt sql now input db' b e m s)
        (
          refl,
          ground (
            arith,
            find-move_booking sql input.booking_id (matches input) BookingStatus.confirmed now db'
                input.booking_id,
          ),
          (rest-move_booking sql input.booking_id (matches input) BookingStatus.confirmed now
              db').2,
        )
