-- ===== src/Booking/Confirm/Contract.antt =====
-- The contract of `processSeatsReservedMessage`.
use event_booking_system_mic.Sql.{Sql, holds}
use event_booking_system_mic.Common.{
  ℕ, Option, Outcome, is_some, ◌≡◌, true, some, transaction, ok, arith, none, false, throws, ◌∙◌,
  Option-cases, refl, inl, inr, Bool-cases,
}
use event_booking_system_mic.Booking.Repository.Settle.{
  process_seats_reserved_message, mark_processed, confirm_booking, set_status,
}
use event_booking_system_mic.Booking.Types.{
  SeatsReservedInput, BookingDb, BookingRecord, BookingProcessingFailureReason, processed_schema,
  booking_schema, booking_not_found, ProcessSeatsReservedResult, ProcessedMessage,
}
use event_booking_system_mic.Errors.{Thrown, unique_violation}
use event_booking_system_mic.Booking.Confirm.Steps.{
  matches, reason_for, after_move, confirm_missing, confirm_pending, confirm_refused,
}
use event_booking_system_mic.Booking.Repository.Create.{queue_event}
use event_booking_system_mic.Booking.Effects.{
  Settled, IsMarked, Untouched, is_queued, Untouched-of_marked, Settled-of_marked,
  move_booking-Untouched, queue_event-Settled, mark_processed-IsMarked, queue_event_throws,
}
use event_booking_system_mic.Booking.Rows.{
  mark_processed-taken, queue_event_effect, rest-move_booking, mark_processed_effect,
  mark_processed-fresh,
}
use event_booking_system_mic.Booking.Repository.Rows.{map_row}
use event_booking_system_mic.Contracts.{BookingStatus}

module _ (sql : Sql) where
  -- Why a booking is not confirmed.
  abbrev pub reason_of : SeatsReservedInput → Option BookingRecord → BookingProcessingFailureReason
  reason_of input none = booking_not_found
  reason_of input (some b) = reason_for input b

  -- How a call on `db` may end, and what it has then done.
  abbrev pub Confirms :
      ℕ
      → SeatsReservedInput
      → BookingDb sql
      → Outcome Thrown ProcessSeatsReservedResult × BookingDb sql
      → Type 0
  Confirms now input db (ok ProcessSeatsReservedResult.duplicate, after) =
      (is_some (sql.find processed_schema input.message_id db.processed_messages) ≡ true)
      × (after ≡ db)
  Confirms now input db (ok (ProcessSeatsReservedResult.confirmed dto row), after) =
      (b : BookingRecord) × Settled sql input.booking_id BookingStatus.confirmed now
        input.outbox_on_success db after b
      × (matches input b ≡ true)
      × (dto ≡ map_row (set_status BookingStatus.confirmed now b))
      × (row ≡ input.outbox_on_success.id)
      × IsMarked sql input.message_id db after
  Confirms now input db (ok (ProcessSeatsReservedResult.rejected reason), after) =
      Untouched sql db after
      × (holds (matches input) (sql.find booking_schema input.booking_id db.bookings) ≡ false)
      × (reason ≡ reason_of input (sql.find booking_schema input.booking_id db.bookings))
      × IsMarked sql input.message_id db after
  Confirms now input db (throws e, after) =
      (e ≡ unique_violation)
      × (is_queued sql input.outbox_on_success db ≡ true)
      × (sql.find processed_schema input.message_id db.processed_messages ≡ none)
      × (after ≡ db)

  pub process_seats_reserved-duplicate :
      (now : ℕ) (input : SeatsReservedInput) (db : BookingDb sql)
      → is_some (sql.find processed_schema input.message_id db.processed_messages) ≡ true
      → process_seats_reserved_message sql now input db
        ≡ (ok ProcessSeatsReservedResult.duplicate, db)
  unfolding process_seats_reserved_message
  process_seats_reserved-duplicate now input db h =
      ground (arith, mark_processed-taken sql now input.message_id db h)

  -- The transaction, once the message is marked.
  pub process_fresh :
      (now : ℕ) (input : SeatsReservedInput) (db marked : BookingDb sql)
      → mark_processed sql now input.message_id db ≡ some marked
      → process_seats_reserved_message sql now input db
        ≡ transaction (λ (d : BookingDb sql). confirm_booking sql now input marked) db
  unfolding process_seats_reserved_message
  process_fresh now input db marked e = ground arith

  module _ (now : ℕ) (input : SeatsReservedInput) (db : BookingDb sql)
      (rows : sql.Rows ProcessedMessage)
      (h : mark_processed sql now input.message_id db
        ≡ some (record db { processed_messages = rows })) where
    abbrev marked : BookingDb sql
    marked = record db { processed_messages = rows }

    abbrev Ends : Outcome Thrown (ProcessSeatsReservedResult × BookingDb sql) → Type 0
    Ends r = Confirms now input db (transaction (λ (d : BookingDb sql). r) db)

    -- The transaction goes on with a queued event.
    Ends-queued :
        (b : BookingRecord)
        → sql.find booking_schema input.booking_id db.bookings ≡ some b
        → matches input b ≡ true
        → (r : Outcome Thrown (ProcessSeatsReservedResult × BookingDb sql))
        → queue_event sql now input.outbox_on_success
            (ProcessSeatsReservedResult.confirmed
              (map_row (set_status BookingStatus.confirmed now b))
              input.outbox_on_success.id)
            (after_move sql now input marked)
          ≡ r
        → Ends r
    Ends-queued b e m (ok (a, after)) q =
        let (same, _, _, processed, _) = queue_event_effect sql now _ _ _ {b = a} {db' = after} q in
        rw same (
          b,
          Settled-of_marked sql _ _ now _ db after b rows
              (queue_event-Settled sql _ (matches input) _ now _ _ marked after b {a' = a} e m q),
          m,
          refl,
          refl,
          mark_processed-IsMarked sql now _ db after rows h
              (processed ∙ (rest-move_booking sql _ (matches input) _ now marked).1),
        )
    Ends-queued b e m (throws t) q =
        let (same, queued) = queue_event_throws sql now _ _ _ q in
        (
          same,
          rw (rest-move_booking sql _ (matches input) _ now marked).2 at queued,
          (mark_processed_effect sql now _ db h).4,
          refl,
        )

    -- The transaction refuses the booking.
    Ends-refused :
        (o : Option BookingRecord)
        → sql.find booking_schema input.booking_id db.bookings ≡ o
        → holds (matches input) o ≡ false
        → Ends (
            ok (
              ProcessSeatsReservedResult.rejected (reason_of input o),
              after_move sql now input marked,
            ))
    Ends-refused o e m = rw (← e) (
      Untouched-of_marked sql db (after_move sql now input marked) rows
          (move_booking-Untouched sql _ (matches input) _ now marked (rw e m)),
      rw e m,
      refl,
      mark_processed-IsMarked sql now _ db (after_move sql now input marked) rows h
          (rest-move_booking sql _ (matches input) _ now marked).1,
    )

    Ends-fresh : input.event_id.spelling ≡ 0 → Ends (confirm_booking sql now input marked)
    Ends-fresh s = elim (Option-cases (sql.find booking_schema input.booking_id db.bookings)) [
      | inl e ↦ rw (confirm_missing sql now input marked e) (Ends-refused none e refl)
      | inr (b, e) ↦ elim (Bool-cases (matches input b)) [
        | inl m ↦ rw (confirm_pending sql now input marked b e m s) (Ends-queued b e m _ refl)
        | inr m ↦ rw (confirm_refused sql now input marked b e m) (Ends-refused (some b) e m)
      ]
    ]

  -- For a message whose event id is spelt as the database spells it, a call that ends as a duplicate
  -- found the message marked and changed nothing; one that confirms found the booking pending, of that
  -- event and quantity, set it to CONFIRMED, queued the event and marked the message; one that refuses
  -- found no such booking, gives the reason, changed no booking, queued nothing and marked the
  -- message; and one that throws found the event queued already and changed nothing.
  pub process_seats_reserved-Confirms :
      (now : ℕ) (input : SeatsReservedInput) (db : BookingDb sql)
      → input.event_id.spelling ≡ 0
      → Confirms now input db (process_seats_reserved_message sql now input db)
  process_seats_reserved-Confirms now input db s =
      elim (Option-cases (sql.find processed_schema input.message_id db.processed_messages)) [
        | inl e ↦
            let (rows, h) = mark_processed-fresh sql now input.message_id db e in
            rw (process_fresh now input db (record db { processed_messages = rows }) h)
              (Ends-fresh now input db rows h s)
        | inr (_, e) ↦ rw (process_seats_reserved-duplicate now input db (rw e)) (rw e, refl)
      ]
