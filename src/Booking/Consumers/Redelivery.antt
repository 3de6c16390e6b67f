-- ===== src/Booking/Consumers/Redelivery.antt =====
-- A message that the bus delivers again to the consumers of the booking service.
use event_booking_system_mic.Common.{
  ◌≡◌, ℕ, Outcome, Option-cases, inl, inr, is_some, true, ok, arith, throws, refl,
}
use event_booking_system_mic.Sql.{Sql}
use event_booking_system_mic.Outbox.Dispatch.{Publisher}
use event_booking_system_mic.Booking.Service.{
  claim_error, dispatch_outbox, drain, ServiceWorld, FreshIds,
}
use event_booking_system_mic.Contracts.{MessageEnvelope, BookingEventQuantity, BookingEventFailure}
use event_booking_system_mic.Errors.{Thrown}
use event_booking_system_mic.Booking.Types.{
  ProcessSeatReservationFailedResult, ProcessSeatsReservedResult, processed_schema,
}
use event_booking_system_mic.Booking.Repository.Settle.{
  process_seats_reserved_message, process_seat_reservation_failed_message,
}
use event_booking_system_mic.Booking.Confirm.Contract.{process_seats_reserved-duplicate}
use event_booking_system_mic.Booking.Fail.Contract.{process_seat_reservation_failed-duplicate}
use event_booking_system_mic.Booking.Fail.Delivery.{process_seat_reservation_failed-marks}
use event_booking_system_mic.Booking.Confirm.Delivery.{process_seats_reserved-marks}
use event_booking_system_mic.Booking.Consumers.{
  handle_seats_reserved, finish_reserved, handle_seat_reservation_failed, finish_failed,
  failed_input, reserved_input,
}

module _ (sql : Sql) (publisher : Publisher) where
  abbrev IsMarked : ℕ → ServiceWorld sql publisher → Type 0
  IsMarked m w = is_some (sql.find processed_schema m w.db.processed_messages) ≡ true

  drain-IsMarked :
      (now m : ℕ) (w : ServiceWorld sql publisher)
      → IsMarked m w
      → IsMarked m (drain sql publisher now w).1
  unfolding drain dispatch_outbox
  drain-IsMarked now m w h = elim (Option-cases (claim_error sql publisher now w)) [
    | inl e ↦ rw (drain, e) h
    | inr (t, e) ↦ rw (drain, e) h
  ]

  finish_reserved-IsMarked :
      (now m : ℕ) (r : Outcome Thrown ProcessSeatsReservedResult) (w : ServiceWorld sql publisher)
      → (finish_reserved sql publisher now r w).0 ≡ ok tt
      → ((a : ProcessSeatsReservedResult) → r ≡ ok a → IsMarked m w)
      → IsMarked m (finish_reserved sql publisher now r w).1
  unfolding finish_reserved
  finish_reserved-IsMarked now m (throws e) w h k = absurd (ground arith)
  finish_reserved-IsMarked now m (ok ProcessSeatsReservedResult.duplicate) w h k = k _ refl
  finish_reserved-IsMarked now m (ok (ProcessSeatsReservedResult.rejected _)) w h k = k _ refl
  finish_reserved-IsMarked now m (ok (ProcessSeatsReservedResult.confirmed _ _)) w h k =
      drain-IsMarked now m w (k _ refl)

  handle_seats_reserved-IsMarked :
      (now : ℕ) (ids : FreshIds) (m : MessageEnvelope BookingEventQuantity)
      (w : ServiceWorld sql publisher)
      → (handle_seats_reserved sql publisher now ids m w).0 ≡ ok tt
      → IsMarked m.message_id (handle_seats_reserved sql publisher now ids m w).1
  unfolding handle_seats_reserved
  handle_seats_reserved-IsMarked now ids m w h =
      let input = reserved_input sql publisher now ids m in
      let (r, db) = process_seats_reserved_message sql now input w.db in
      finish_reserved-IsMarked now m.message_id r (record w { db = db }) h
        (λ a e.
          process_seats_reserved-marks sql now input w.db {r = a} {db' = db} (ground (arith, e)))

  handle_seats_reserved-again :
      (now : ℕ) (ids : FreshIds) (m : MessageEnvelope BookingEventQuantity)
      (w : ServiceWorld sql publisher)
      → IsMarked m.message_id w
      → handle_seats_reserved sql publisher now ids m w ≡ (ok tt, w)
  unfolding handle_seats_reserved finish_reserved
  handle_seats_reserved-again now ids m w h = ground (
    arith,
    process_seats_reserved-duplicate sql now (reserved_input sql publisher now ids m) w.db h,
  )

  -- On the state that the handling of a seats-reserved message has left, where it ended well, a
  -- message with the same id, at any time and with any contents, ends well and changes neither the
  -- database nor the bus.
  pub handle_seats_reserved_twice :
      (now : ℕ) (ids : FreshIds) (m : MessageEnvelope BookingEventQuantity)
      (w : ServiceWorld sql publisher)
      → (handle_seats_reserved sql publisher now ids m w).0 ≡ ok tt
      → (later : ℕ) (ids' : FreshIds) (m' : MessageEnvelope BookingEventQuantity)
      → m'.message_id ≡ m.message_id
      → let w' = (handle_seats_reserved sql publisher now ids m w).1 in
        handle_seats_reserved sql publisher later ids' m' w' ≡ (ok tt, w')
  handle_seats_reserved_twice now ids m w h later ids' m' e =
      handle_seats_reserved-again later ids' m' (handle_seats_reserved sql publisher now ids m w).1
        (rw e (handle_seats_reserved-IsMarked now ids m w h))

  finish_failed-IsMarked :
      (now m : ℕ) (r : Outcome Thrown ProcessSeatReservationFailedResult)
      (w : ServiceWorld sql publisher)
      → (finish_failed sql publisher now r w).0 ≡ ok tt
      → ((a : ProcessSeatReservationFailedResult) → r ≡ ok a → IsMarked m w)
      → IsMarked m (finish_failed sql publisher now r w).1
  unfolding finish_failed
  finish_failed-IsMarked now m (throws e) w h k = absurd (ground arith)
  finish_failed-IsMarked now m (ok ProcessSeatReservationFailedResult.duplicate) w h k = k _ refl
  finish_failed-IsMarked now m (ok (ProcessSeatReservationFailedResult.rejected _)) w h k = k _ refl
  finish_failed-IsMarked now m (ok (ProcessSeatReservationFailedResult.failed _ _)) w h k =
      drain-IsMarked now m w (k _ refl)

  handle_seat_reservation_failed-IsMarked :
      (now : ℕ) (ids : FreshIds) (m : MessageEnvelope BookingEventFailure)
      (w : ServiceWorld sql publisher)
      → (handle_seat_reservation_failed sql publisher now ids m w).0 ≡ ok tt
      → IsMarked m.message_id (handle_seat_reservation_failed sql publisher now ids m w).1
  unfolding handle_seat_reservation_failed
  handle_seat_reservation_failed-IsMarked now ids m w h =
      let input = failed_input sql publisher now ids m in
      let (r, db) = process_seat_reservation_failed_message sql now input w.db in
      finish_failed-IsMarked now m.message_id r (record w { db = db }) h
        (λ a e.
          process_seat_reservation_failed-marks sql now input w.db {r = a} {db' = db}
            (ground (arith, e)))

  handle_seat_reservation_failed-again :
      (now : ℕ) (ids : FreshIds) (m : MessageEnvelope BookingEventFailure)
      (w : ServiceWorld sql publisher)
      → IsMarked m.message_id w
      → handle_seat_reservation_failed sql publisher now ids m w ≡ (ok tt, w)
  unfolding handle_seat_reservation_failed finish_failed
  handle_seat_reservation_failed-again now ids m w h = ground (
    arith,
    process_seat_reservation_failed-duplicate sql now (failed_input sql publisher now ids m) w.db h,
  )

  -- On the state that the handling of a seat-reservation-failed message has left, where it ended
  -- well, a message with the same id, at any time and with any contents, ends well and changes
  -- neither the database nor the bus.
  pub handle_seat_reservation_failed_twice :
      (now : ℕ) (ids : FreshIds) (m : MessageEnvelope BookingEventFailure)
      (w : ServiceWorld sql publisher)
      → (handle_seat_reservation_failed sql publisher now ids m w).0 ≡ ok tt
      → (later : ℕ) (ids' : FreshIds) (m' : MessageEnvelope BookingEventFailure)
      → m'.message_id ≡ m.message_id
      → let w' = (handle_seat_reservation_failed sql publisher now ids m w).1 in
        handle_seat_reservation_failed sql publisher later ids' m' w' ≡ (ok tt, w')
  handle_seat_reservation_failed_twice now ids m w h later ids' m' e =
      handle_seat_reservation_failed-again later ids' m'
        (handle_seat_reservation_failed sql publisher now ids m w).1
        (rw e (handle_seat_reservation_failed-IsMarked now ids m w h))
