-- ===== src/Booking/Cancel.antt =====
-- The contract of `cancelBookingWithOutbox`.
use event_booking_system_mic.Sql.{Sql, holds}
use event_booking_system_mic.Booking.Repository.Settle.{
  cancel_booking_with_outbox, cancel_booking, move_booking, is_confirmed, set_status,
}
use event_booking_system_mic.Common.{
  ℕ, Option, Outcome, Option-cases, inl, ◌≡◌, none, some, transaction, ok, false, inr, true,
  if◌then◌else◌, Bool-cases, is_some, arith, refl, throws, ==_iff, ap,
}
use event_booking_system_mic.Booking.Types.{
  CancelBookingInput, BookingDb, BookingRecord, booking_schema, CancelBookingResult, BookingDto,
  invalid_status, booking_not_found,
}
use event_booking_system_mic.Errors.{Thrown, unique_violation}
use event_booking_system_mic.Contracts.{BookingStatus}
use event_booking_system_mic.Booking.Effects.{
  Settled, Untouched, queue_event-Settled, move_booking-Untouched, queue_event_throws, is_queued,
}
use event_booking_system_mic.Booking.Repository.Create.{queue_event}
use event_booking_system_mic.Booking.Repository.Rows.{map_row}
use event_booking_system_mic.Booking.Rows.{
  queue_event_effect, find-move_booking, none_moved-move_booking, rest-move_booking,
}
use mathlib.Core.Path.{subst}

module _ (sql : Sql) where
  -- How a call on `db` may end, and what it has then done.
  abbrev pub Cancels :
      ℕ
      → CancelBookingInput
      → BookingDb sql
      → Outcome Thrown CancelBookingResult × BookingDb sql
      → Type 0
  Cancels now input db (ok (CancelBookingResult.cancelled dto row), after) =
      (b : BookingRecord) × Settled sql input.id BookingStatus.cancelled now input.outbox db after b
      × (is_confirmed b ≡ true)
      × (dto ≡ map_row (set_status BookingStatus.cancelled now b))
      × (row ≡ input.outbox.id)
  Cancels now input db (ok (CancelBookingResult.rejected reason), after) =
      Untouched sql db after
      × (holds is_confirmed (sql.find booking_schema input.id db.bookings) ≡ false)
      × (reason ≡ (
          if is_some (sql.find booking_schema input.id db.bookings)
          then invalid_status
          else booking_not_found))
  Cancels now input db (throws e, after) =
      (e ≡ unique_violation) × (is_queued sql input.outbox db ≡ true) × (after ≡ db)

  module _ (now : ℕ) (input : CancelBookingInput) (db : BookingDb sql) where
    abbrev pub after_move : BookingDb sql
    after_move = (move_booking sql input.id is_confirmed BookingStatus.cancelled now db).0

    abbrev Ends : Outcome Thrown (CancelBookingResult × BookingDb sql) → Type 0
    Ends r = Cancels now input db (transaction (λ (d : BookingDb sql). r) db)

    cancel_refused :
        (o : Option BookingRecord)
        → sql.find booking_schema input.id db.bookings ≡ o
        → holds is_confirmed o ≡ false
        → cancel_booking sql now input db
          ≡ ok (
            CancelBookingResult.rejected (if is_some o then invalid_status else booking_not_found),
            after_move,
          )
    unfolding cancel_booking
    cancel_refused o e m = ground (
      arith,
      find-move_booking sql input.id is_confirmed BookingStatus.cancelled now db input.id,
      none_moved-move_booking sql input.id is_confirmed BookingStatus.cancelled now db,
    )

    cancel_confirmed :
        (b : BookingRecord)
        → sql.find booking_schema input.id db.bookings ≡ some b
        → is_confirmed b ≡ true
        → cancel_booking sql now input db
          ≡ queue_event sql now input.outbox
              (CancelBookingResult.cancelled
                (map_row (set_status BookingStatus.cancelled now b))
                input.outbox.id)
              after_move
    unfolding cancel_booking
    cancel_confirmed b e m = ground (
      arith,
      find-move_booking sql input.id is_confirmed BookingStatus.cancelled now db input.id,
      none_moved-move_booking sql input.id is_confirmed BookingStatus.cancelled now db,
    )

    Ends-queued :
        (b : BookingRecord)
        → sql.find booking_schema input.id db.bookings ≡ some b
        → is_confirmed b ≡ true
        → (r : Outcome Thrown (CancelBookingResult × BookingDb sql))
        → queue_event sql now input.outbox
            (CancelBookingResult.cancelled
              (map_row (set_status BookingStatus.cancelled now b))
              input.outbox.id)
            after_move
          ≡ r
        → Ends r
    Ends-queued b e m (ok (a, after)) q =
        let (same, _, _, _, _) = queue_event_effect sql now _ _ _ {b = a} {db' = after} q in
        rw same (
          b,
          queue_event-Settled sql _ is_confirmed _ now _ _ db after b {a' = a} e m q,
          m,
          refl,
          refl,
        )
    Ends-queued b e m (throws t) q =
        let (same, queued) = queue_event_throws sql now _ _ _ q in
        (same, rw (rest-move_booking sql _ is_confirmed _ now db).2 at queued, refl)

    Ends-refused :
        (o : Option BookingRecord)
        → sql.find booking_schema input.id db.bookings ≡ o
        → holds is_confirmed o ≡ false
        → Ends (
            ok (
              CancelBookingResult.rejected
                  (if is_some o then invalid_status else booking_not_found),
              after_move,
            ))
    Ends-refused o e m =
        rw (← e) (move_booking-Untouched sql _ is_confirmed _ now db (rw e m), rw e m, refl)

    Ends-all : Ends (cancel_booking sql now input db)
    Ends-all = elim (Option-cases (sql.find booking_schema input.id db.bookings)) [
      | inl e ↦ rw (cancel_refused none e refl) (Ends-refused none e refl)
      | inr (b, e) ↦ elim (Bool-cases (is_confirmed b)) [
        | inl m ↦ rw (cancel_confirmed b e m) (Ends-queued b e m _ refl)
        | inr m ↦ rw (cancel_refused (some b) e m) (Ends-refused (some b) e m)
      ]
    ]

  -- A call that cancels found the booking CONFIRMED, set it to CANCELLED and queued the event; one that
  -- refuses found it not CONFIRMED or missing, gives the reason and changed nothing; and one that
  -- throws found the event queued already and changed nothing.
  pub cancel_booking_with_outbox-Cancels :
      (now : ℕ) (input : CancelBookingInput) (db : BookingDb sql)
      → Cancels now input db (cancel_booking_with_outbox sql now input db)
  unfolding cancel_booking_with_outbox
  cancel_booking_with_outbox-Cancels now input db = Ends-all now input db

  transaction_ends :
      (now : ℕ) (input : CancelBookingInput) (db : BookingDb sql)
      {r : Outcome Thrown (CancelBookingResult × BookingDb sql)}
      → cancel_booking sql now input db ≡ r
      → cancel_booking_with_outbox sql now input db ≡ transaction (λ (d : BookingDb sql). r) db
  unfolding cancel_booking_with_outbox
  transaction_ends now input db e = ap (λ r. transaction (λ (d : BookingDb sql). r) db) e

  -- On the database that a cancellation of a booking has left, another cancellation of it is
  -- refused for the booking's status, changes no booking and queues no event.
  pub cancel_booking_twice :
      (now : ℕ) (input : CancelBookingInput) (db : BookingDb sql) {dto : BookingDto} {row : ℕ}
      {db' : BookingDb sql}
      → cancel_booking_with_outbox sql now input db
        ≡ (ok (CancelBookingResult.cancelled dto row), db')
      → (later : ℕ) (again : CancelBookingInput) → again.id ≡ input.id
      → let (r, after) = cancel_booking_with_outbox sql later again db' in
        (r ≡ ok (CancelBookingResult.rejected invalid_status)) × Untouched sql db' after
  unfolding is_confirmed
  cancel_booking_twice now input db {dto} {row} {db'} h later again same =
      let (b, s, _, _, _) =
        subst (Cancels now input db) h (cancel_booking_with_outbox-Cancels now input db) in
      let gone = set_status BookingStatus.cancelled now b in
      let found : sql.find booking_schema again.id db'.bookings ≡ some gone =
        rw same (ground (arith, s.moved input.id, ==_iff input.id input.id)) in
      let refused = cancel_refused later again db' (some gone) found refl in
      rw (transaction_ends later again db' refused) (
        refl,
        move_booking-Untouched sql again.id is_confirmed BookingStatus.cancelled later db'
            (rw found refl),
      )
