-- ===== src/Booking/Lifecycle/Transactions.antt =====
-- Each transaction of the booking service, as a move of every booking.
use event_booking_system_mic.Booking.Confirm.Contract as Confirm
use event_booking_system_mic.Booking.Fail.Contract as Fail
use event_booking_system_mic.Contracts.{BookingStatus}
use event_booking_system_mic.Sql.{Sql, find-create_self}
use event_booking_system_mic.Common.{
  ℕ, ◌≡◌, arith, some, ok, Outcome, Bool-cases, transaction, throws, refl, inr, inl, ◌==◌, ==_iff,
  Option-cases,
}
use event_booking_system_mic.Booking.Repository.Settle.{
  is_pending_at, confirm_booking, is_confirmed, cancel_booking, is_pending_for, fail_booking,
  move_booking, cancel_booking_with_outbox, process_seats_reserved_message,
  process_seat_reservation_failed_message,
}
use event_booking_system_mic.Booking.Types.{
  BookingDb, SeatsReservedInput, booking_schema, ProcessedMessage, ProcessSeatsReservedResult,
  SeatReservationFailedInput, CancelBookingInput, ProcessSeatReservationFailedResult,
  CancelBookingResult, CreateBookingInput, BookingDto, processed_schema,
}
use event_booking_system_mic.Booking.Repository.Create.{
  queue_event, insert_booking, create_booking_with_outbox, record_key, new_booking,
}
use event_booking_system_mic.Errors.{Thrown}
use event_booking_system_mic.Booking.Rows.{mark_processed-fresh}
use event_booking_system_mic.Booking.Lifecycle.Moves.{
  NextAt, kept, NextAt-of, confirm_booking-bookings, fail_booking-bookings, cancel_booking-bookings,
  move_booking-NextAt, confirm, cancel, fail, pending_only, pending_at_only, confirmed_only,
  created,
}
use event_booking_system_mic.Outbox.{OutboxInput}

module _ (sql : Sql) where
  confirm_end :
      (now : ℕ) (input : SeatsReservedInput) (db : BookingDb sql) (rows : sql.Rows ProcessedMessage)
      (j : ℕ) (r : Outcome Thrown (ProcessSeatsReservedResult × BookingDb sql))
      → confirm_booking sql now input (record db { processed_messages = rows }) ≡ r
      → NextAt sql j db (transaction (λ (d : BookingDb sql). r) db).1
  confirm_end now input db rows j (throws e) h = kept refl
  confirm_end now input db rows j (ok (a, after)) h =
      let marked = record db { processed_messages = rows } in
      let p = is_pending_for input.event_id input.quantity in
      NextAt-of sql j db (move_booking sql input.booking_id p BookingStatus.confirmed now marked).0
        after (confirm_booking-bookings sql now input marked {r = a} {db' = after} h)
        (move_booking-NextAt sql input.booking_id p now marked j confirm
          (pending_only sql input.event_id input.quantity))

  fail_end :
      (now : ℕ) (input : SeatReservationFailedInput) (db : BookingDb sql)
      (rows : sql.Rows ProcessedMessage) (j : ℕ)
      (r : Outcome Thrown (ProcessSeatReservationFailedResult × BookingDb sql))
      → fail_booking sql now input (record db { processed_messages = rows }) ≡ r
      → NextAt sql j db (transaction (λ (d : BookingDb sql). r) db).1
  fail_end now input db rows j (throws e) h = kept refl
  fail_end now input db rows j (ok (a, after)) h =
      let marked = record db { processed_messages = rows } in
      let p = is_pending_at input.event_id in
      NextAt-of sql j db (move_booking sql input.booking_id p BookingStatus.failed now marked).0
        after (fail_booking-bookings sql now input marked {r = a} {db' = after} h)
        (move_booking-NextAt sql input.booking_id p now marked j fail
          (pending_at_only sql input.event_id))

  pub process_seats_reserved-NextAt :
      (now : ℕ) (input : SeatsReservedInput) (db : BookingDb sql) (j : ℕ)
      → NextAt sql j db (process_seats_reserved_message sql now input db).1
  process_seats_reserved-NextAt now input db j =
      elim (Option-cases (sql.find processed_schema input.message_id db.processed_messages)) [
        | inl e ↦
            let (rows, m) = mark_processed-fresh sql now input.message_id db e in
            rw (Confirm.process_fresh sql now input db (record db { processed_messages = rows }) m)
              (confirm_end now input db rows j _ refl)
        | inr (_, e) ↦
            rw (Confirm.process_seats_reserved-duplicate sql now input db (rw e)) (kept refl)
      ]

  pub process_seat_reservation_failed-NextAt :
      (now : ℕ) (input : SeatReservationFailedInput) (db : BookingDb sql) (j : ℕ)
      → NextAt sql j db (process_seat_reservation_failed_message sql now input db).1
  process_seat_reservation_failed-NextAt now input db j =
      elim (Option-cases (sql.find processed_schema input.message_id db.processed_messages)) [
        | inl e ↦
            let (rows, m) = mark_processed-fresh sql now input.message_id db e in
            rw (Fail.process_fresh sql now input db (record db { processed_messages = rows }) m)
              (fail_end now input db rows j _ refl)
        | inr (_, e) ↦
            rw (Fail.process_seat_reservation_failed-duplicate sql now input db (rw e)) (kept refl)
      ]

  cancel_end :
      (now : ℕ) (input : CancelBookingInput) (db : BookingDb sql) (j : ℕ)
      (r : Outcome Thrown (CancelBookingResult × BookingDb sql))
      → cancel_booking sql now input db ≡ r
      → NextAt sql j db (transaction (λ (d : BookingDb sql). r) db).1
  cancel_end now input db j (throws e) h = kept refl
  cancel_end now input db j (ok (a, after)) h =
      NextAt-of sql j db (move_booking sql input.id is_confirmed BookingStatus.cancelled now db).0
        after (cancel_booking-bookings sql now input db {r = a} {db' = after} h)
        (move_booking-NextAt sql input.id is_confirmed now db j cancel (confirmed_only sql))

  pub cancel_booking_with_outbox-NextAt :
      (now : ℕ) (input : CancelBookingInput) (db : BookingDb sql) (j : ℕ)
      → NextAt sql j db (cancel_booking_with_outbox sql now input db).1
  unfolding cancel_booking_with_outbox
  cancel_booking_with_outbox-NextAt now input db j = cancel_end now input db j _ refl

  insert_booking-bookings :
      (now : ℕ) (input : CreateBookingInput) (o : OutboxInput) (db : BookingDb sql) {r : BookingDto}
      {db' : BookingDb sql}
      → insert_booking sql now input o db ≡ ok (r, db')
      → sql.create booking_schema (new_booking now input) db.bookings ≡ some db'.bookings
  unfolding insert_booking queue_event record_key
  insert_booking-bookings now input o db h = ground arith

  insert_end :
      (now : ℕ) (input : CreateBookingInput) (o : OutboxInput) (db : BookingDb sql) (j : ℕ)
      (r : Outcome Thrown (BookingDto × BookingDb sql))
      → input.status ≡ BookingStatus.pending
      → insert_booking sql now input o db ≡ r
      → NextAt sql j db (transaction (λ (d : BookingDb sql). r) db).1
  insert_end now input o db j (throws e) s h = kept refl
  insert_end now input o db j (ok (a, after)) s h =
      let b = new_booking now input in
      let made = insert_booking-bookings now input o db {r = a} {db' = after} h in
      let here = sql.find-create booking_schema b db.bookings {t' = after.bookings} j made in
      let fresh = find-create_self sql booking_schema b db.bookings {t' = after.bookings} made in
      elim (Bool-cases (j == input.id)) [
        | inl same ↦ let e = (==_iff j input.id).0 same in created b (rw e fresh.0) (rw e fresh.1) s
        | inr other ↦ kept (ground arith)
      ]

  pub create_booking_with_outbox-NextAt :
      (now : ℕ) (input : CreateBookingInput) (o : OutboxInput) (db : BookingDb sql) (j : ℕ)
      → input.status ≡ BookingStatus.pending
      → NextAt sql j db (create_booking_with_outbox sql now input o db).1
  unfolding create_booking_with_outbox
  create_booking_with_outbox-NextAt now input o db j s = insert_end now input o db j _ s refl
