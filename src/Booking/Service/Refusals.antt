-- ===== src/Booking/Service/Refusals.antt =====
-- Calls of the booking service that throw.
use event_booking_system_mic.Sql.{Sql}
use event_booking_system_mic.Outbox.Dispatch.{Publisher}
use event_booking_system_mic.Booking.Service.{
  request_fingerprint, cancel_booking, ServiceWorld, make_booking, create_booking, Texts, FreshIds,
  CreateRequest, create_input, reserve_seats_message, get_booking_by_id, cancelled_message,
  after_drain, drain, claim_error,
}
use event_booking_system_mic.Common.{
  ℕ, Outcome, ◌≡◌, refl, ok, throws, is_ok, is_some, true, ◌⊎◌, inl, arith, inr, Outcome-cases,
  Option-cases, Bool-cases,
}
use event_booking_system_mic.Booking.Types.{
  CreateBookingInput, BookingDto, BookingDb, CancelBookingResult, CancelBookingInput,
}
use event_booking_system_mic.Booking.Effects.{Untouched}
use event_booking_system_mic.Outbox.{OutboxInput}
use event_booking_system_mic.Errors.{Thrown}
use event_booking_system_mic.Booking.Repository.Create.{
  create_booking_with_outbox, find_idempotency_record,
}
use event_booking_system_mic.Booking.Cancel.{Cancels, cancel_booking_with_outbox-Cancels}
use event_booking_system_mic.Booking.Idempotency.{create_booking_with_outbox_atomic}
use event_booking_system_mic.Booking.Repository.Settle.{cancel_booking_with_outbox}
use event_booking_system_mic.Booking.Repository.Rows.{truthy_key, fingerprint_eq}

module _ (sql : Sql) (publisher : Publisher) where
  -- Nothing was written and nothing was sent.
  pub record Unchanged (before after : ServiceWorld sql publisher) : Type 0 where
    pub tables : Untouched sql before.db after.db
    pub bus_kept : after.bus ≡ before.bus

  pub Unchanged-refl : (w : ServiceWorld sql publisher) → Unchanged w w
  Unchanged-refl w = record {
    tables = record { bookings_kept = λ j. refl; outbox_kept = refl; keys_kept = refl };
    bus_kept = refl;
  }

  -- Nothing was sent, and nothing was written unless the database refused a claim.
  pub record Refused (now : ℕ) (before after : ServiceWorld sql publisher) : Type 0 where
    pub written : (is_some (before.refuses_claim now) ≡ true) ⊎ Untouched sql before.db after.db
    pub sent : after.bus ≡ before.bus

  pub Unchanged-Refused :
      (now : ℕ) {v w : ServiceWorld sql publisher} → Unchanged v w → Refused now v w
  Unchanged-Refused now h = record { written = inr h.tables; sent = h.bus_kept }

  pub Refused-refl : (now : ℕ) (w : ServiceWorld sql publisher) → Refused now w w
  Refused-refl now w = Unchanged-Refused now (Unchanged-refl w)

  -- What a call that throws has left.
  abbrev pub KeepsService :
      ℕ
      → ServiceWorld sql publisher
      → Outcome Thrown BookingDto × ServiceWorld sql publisher
      → Type 0
  KeepsService now w (ok _, after) = Unit
  KeepsService now w (throws _, after) = Refused now w after

  -- A call that has committed and then waits for the dispatcher.
  drained-KeepsService :
      (now : ℕ) (w : ServiceWorld sql publisher) (db : BookingDb sql) (b : BookingDto)
      → KeepsService now w
          (after_drain sql publisher b (drain sql publisher now (record w { db = db })))
  unfolding drain
  drained-KeepsService now w db b = elim (Option-cases (claim_error sql publisher now w)) [
    | inl e ↦ rw (drain, e) tt
    | inr (t, e) ↦ rw (drain, e) (record { written = inl (ground (arith, e)); sent = refl })
  ]

  create_booking_with_outbox-Atomic :
      (now : ℕ) (input : CreateBookingInput) (o : OutboxInput) (db : BookingDb sql)
      → let (r, after) = create_booking_with_outbox sql now input o db in
        (is_ok r ≡ true) ⊎ (after ≡ db)
  create_booking_with_outbox-Atomic now input o db =
      elim (create_booking_with_outbox_atomic sql now input o db) [
        | inl (e, _) ↦ inl (rw e refl)
        | inr e ↦ inr e
      ]

  make_booking-KeepsService :
      (now : ℕ) (input : CreateBookingInput) (o : OutboxInput) (w : ServiceWorld sql publisher)
      → KeepsService now w (make_booking sql publisher now input o w)
  unfolding make_booking
  make_booking-KeepsService now input o w =
      let r = create_booking_with_outbox sql now input o w.db in
      elim (Outcome-cases r.0) [
        | inl (b, e) ↦ rw (make_booking, e) (drained-KeepsService now w r.1 b)
        | inr (t, e) ↦ elim (create_booking_with_outbox-Atomic now input o w.db) [
          | inl made ↦ absurd (ground (arith, e, made))
          | inr same ↦ rw (make_booking, e, same) (Refused-refl now w)
        ]
      ]

  pub create_booking-KeepsService :
      (texts : Texts) (now : ℕ) (ids : FreshIds) (r : CreateRequest)
      (w : ServiceWorld sql publisher)
      → KeepsService now w (create_booking sql publisher texts now ids r w)
  unfolding create_booking
  create_booking-KeepsService texts now ids r w =
      let input = create_input texts ids r in
      let o = reserve_seats_message now ids r in
      elim (Option-cases (truthy_key r.idempotency_key)) [
        | inl e ↦ rw (create_booking, e) (make_booking-KeepsService now input o w)
        | inr (k, e) ↦ elim (Option-cases (find_idempotency_record sql k w.db)) [
          | inl n ↦ rw (create_booking, e, n) (make_booking-KeepsService now input o w)
          | inr (row, f) ↦
              elim (Bool-cases
                (fingerprint_eq row.request_fingerprint (request_fingerprint texts r))) [
                  | inl same ↦ rw (create_booking, e, f, same) tt
                  | inr other ↦ rw (create_booking, e, f, other) (Refused-refl now w)
                ]
        ]
      ]

  -- The tables after a cancellation that ends so.
  abbrev IsRefused : BookingDb sql → Outcome Thrown CancelBookingResult → BookingDb sql → Type 0
  IsRefused db (ok (CancelBookingResult.cancelled b _)) after = Unit
  IsRefused db (ok (CancelBookingResult.rejected reason)) after = Untouched sql db after
  IsRefused db (throws e) after = Untouched sql db after

  Cancels-IsRefused :
      (now : ℕ) (input : CancelBookingInput) (db : BookingDb sql)
      (r : Outcome Thrown CancelBookingResult × BookingDb sql)
      → Cancels sql now input db r
      → IsRefused db r.0 r.1
  Cancels-IsRefused now input db (throws e, after) (_, _, h) =
      rw h (record { bookings_kept = λ j. refl; outbox_kept = refl; keys_kept = refl })
  Cancels-IsRefused now input db (ok (CancelBookingResult.rejected reason), after) (kept, _, _) =
      kept
  Cancels-IsRefused now input db (ok (CancelBookingResult.cancelled b _), after) h = tt

  module _ (now : ℕ) (ids : FreshIds) (id : ℕ) (w : ServiceWorld sql publisher) where
    abbrev asked : BookingDto → CancelBookingInput
    asked b = record { id = id; outbox = cancelled_message now ids b }

    cancelled-KeepsService :
        (b : BookingDto) (r : Outcome Thrown CancelBookingResult)
        → get_booking_by_id sql publisher id w ≡ ok b
        → (cancel_booking_with_outbox sql now (asked b) w.db).0 ≡ r
        → IsRefused w.db r (cancel_booking_with_outbox sql now (asked b) w.db).1
        → KeepsService now w (cancel_booking sql publisher now ids id w)
    unfolding cancel_booking
    cancelled-KeepsService b (throws t) g e kept =
        rw (cancel_booking, g, e) (record { written = inr kept; sent = refl })
    cancelled-KeepsService b (ok (CancelBookingResult.rejected reason)) g e kept =
        rw (cancel_booking, g, e) (record { written = inr kept; sent = refl })
    cancelled-KeepsService b (ok (CancelBookingResult.cancelled b' _)) g e kept =
        rw (cancel_booking, g, e)
          (drained-KeepsService now w (cancel_booking_with_outbox sql now (asked b) w.db).1 b')

    pub cancel_booking-KeepsService : KeepsService now w (cancel_booking sql publisher now ids id w)
    unfolding cancel_booking
    cancel_booking-KeepsService = elim (Outcome-cases (get_booking_by_id sql publisher id w)) [
      | inr (t, e) ↦ rw (cancel_booking, e) (Refused-refl now w)
      | inl (b, e) ↦
          cancelled-KeepsService b (cancel_booking_with_outbox sql now (asked b) w.db).0 e refl (
            Cancels-IsRefused now (asked b) w.db (cancel_booking_with_outbox sql now (asked b) w.db)
              (cancel_booking_with_outbox-Cancels sql now (asked b) w.db))
    ]
