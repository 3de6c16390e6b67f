-- ===== src/Booking/Lifecycle/Moves.antt =====
-- The moves of a booking along the edges of its life cycle.
use event_booking_system_mic.Contracts.{BookingStatus, UuidText}
use event_booking_system_mic.Sql.{Sql, holds, holds_found}
use event_booking_system_mic.Common.{
  Option, ℕ, ◌≡◌, Bool, none, true, arith, some, ok, Bool-cases, inr, inl, ◌==◌, ==_iff,
}
use event_booking_system_mic.Booking.Repository.Settle.{
  is_pending_at, confirm_booking, is_confirmed, cancel_booking, is_pending_for, fail_booking,
  move_booking, set_status,
}
use event_booking_system_mic.Booking.Types.{
  BookingRecord, BookingDb, SeatsReservedInput, booking_schema, ProcessSeatsReservedResult,
  SeatReservationFailedInput, CancelBookingInput, ProcessSeatReservationFailedResult,
  CancelBookingResult,
}
use event_booking_system_mic.Booking.Repository.Create.{queue_event}
use event_booking_system_mic.Booking.Rows.{find-move_booking}
use event_booking_system_mic.Booking.Effects.{move_booking-Untouched}

pub data Allowed : BookingStatus → BookingStatus → Type 0 where
  confirm : Allowed BookingStatus.pending BookingStatus.confirmed
  fail : Allowed BookingStatus.pending BookingStatus.failed
  cancel : Allowed BookingStatus.confirmed BookingStatus.cancelled

-- What a transaction may do to the row of one id.
pub data Next (before after : Option BookingRecord) : Type 0 where
  kept : after ≡ before → Next before after
  created :
      (b : BookingRecord)
      → before ≡ none
      → after ≡ some b
      → b.status ≡ BookingStatus.pending
      → Next before after
  moved :
      (b : BookingRecord) {from to : BookingStatus} (now : ℕ)
      → Allowed from to
      → before ≡ some b
      → b.status ≡ from
      → after ≡ some (set_status to now b)
      → Next before after

module _ (sql : Sql) where
  -- The row of id `j` in two databases.
  abbrev pub NextAt : ℕ → BookingDb sql → BookingDb sql → Type 0
  NextAt j before after =
      Next (sql.find booking_schema j before.bookings) (sql.find booking_schema j after.bookings)

  pub move_booking-NextAt :
      (id : ℕ) (p : BookingRecord → Bool) {from to : BookingStatus} (now : ℕ) (db : BookingDb sql)
      (j : ℕ)
      → Allowed from to
      → ((b : BookingRecord) → p b ≡ true → b.status ≡ from)
      → NextAt j db (move_booking sql id p to now db).0
  move_booking-NextAt id p {from} {to} now db j a only =
      let found = sql.find booking_schema id db.bookings in
      let here = find-move_booking sql id p to now db j in
      elim (Bool-cases (holds p found)) [
        | inr stays ↦ kept ((move_booking-Untouched sql id p to now db stays).bookings_kept j)
        | inl passes ↦
            let (b, f, m) = holds_found p found passes in
            elim (Bool-cases (j == id)) [
              | inr other ↦ kept (ground arith)
              | inl same ↦
                  let e = (==_iff j id).0 same in moved b now a (rw e f) (only b m) (ground arith)
            ]
      ]

  pub confirm_booking-bookings :
      (now : ℕ) (input : SeatsReservedInput) (db : BookingDb sql) {r : ProcessSeatsReservedResult}
      {db' : BookingDb sql}
      → confirm_booking sql now input db ≡ ok (r, db')
      → db'.bookings
        ≡ (move_booking sql input.booking_id
            (is_pending_for input.event_id input.quantity)
            BookingStatus.confirmed
            now
            db).0.bookings
  unfolding confirm_booking queue_event
  confirm_booking-bookings now input db h = ground arith

  pub fail_booking-bookings :
      (now : ℕ) (input : SeatReservationFailedInput) (db : BookingDb sql)
      {r : ProcessSeatReservationFailedResult} {db' : BookingDb sql}
      → fail_booking sql now input db ≡ ok (r, db')
      → db'.bookings
        ≡ (move_booking sql input.booking_id
            (is_pending_at input.event_id)
            BookingStatus.failed
            now
            db).0.bookings
  unfolding fail_booking queue_event
  fail_booking-bookings now input db h = ground arith

  pub cancel_booking-bookings :
      (now : ℕ) (input : CancelBookingInput) (db : BookingDb sql) {r : CancelBookingResult}
      {db' : BookingDb sql}
      → cancel_booking sql now input db ≡ ok (r, db')
      → db'.bookings
        ≡ (move_booking sql input.id is_confirmed BookingStatus.cancelled now db).0.bookings
  unfolding cancel_booking queue_event
  cancel_booking-bookings now input db h = ground arith

  pub pending_only :
      (event_id : UuidText) (quantity : ℕ) (b : BookingRecord)
      → is_pending_for event_id quantity b ≡ true
      → b.status ≡ BookingStatus.pending
  unfolding is_pending_for
  pending_only event_id quantity b h = ground arith

  pub pending_at_only :
      (event_id : UuidText) (b : BookingRecord)
      → is_pending_at event_id b ≡ true
      → b.status ≡ BookingStatus.pending
  unfolding is_pending_at
  pending_at_only event_id b h = ground arith

  pub confirmed_only :
      (b : BookingRecord) → is_confirmed b ≡ true → b.status ≡ BookingStatus.confirmed
  unfolding is_confirmed
  confirmed_only b h = ground arith

  -- A row in a table that is another one by an equation.
  pub NextAt-of :
      (j : ℕ) (db after after' : BookingDb sql)
      → after'.bookings ≡ after.bookings
      → NextAt j db after
      → NextAt j db after'
  NextAt-of j db after after' e n = rw e n
