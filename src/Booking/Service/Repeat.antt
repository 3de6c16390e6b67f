-- ===== src/Booking/Service/Repeat.antt =====
-- A request that went through, sent again.
use mathlib.Core.Path.{subst}
use event_booking_system_mic.Sql.{Sql}
use event_booking_system_mic.Outbox.Dispatch.{Publisher}
use event_booking_system_mic.Booking.Service.{
  Texts, create_booking, CreateRequest, make_booking, FreshIds, ServiceWorld, request_fingerprint,
  create_input, reserve_seats_message, drain, after_drain,
}
use event_booking_system_mic.Booking.Service.Replay.{
  create_booking-known, replayed, create_booking-made, create_booking_replays, fingerprint_eq_refl,
  after_drain_split,
}
use event_booking_system_mic.Common.{
  ◌∙◌, ℕ, Outcome, throws, ◌≡◌, ok, some, none, is_ok, false, Option-cases, arith, ap, inl, inr,
  refl, if◌then◌else◌,
}
use event_booking_system_mic.Errors.{Thrown, unique_violation}
use event_booking_system_mic.Booking.Repository.Create.{
  create_booking_with_outbox, find_idempotency_record, replay, insert_booking, recover,
  idempotency_key_reused,
}
use event_booking_system_mic.Booking.Types.{
  BookingDto, IdempotencyRow, BookingDb, CreateBookingInput, booking_schema,
}
use event_booking_system_mic.Booking.Repository.Rows.{truthy_key}
use event_booking_system_mic.Outbox.{OutboxInput}

module _ (sql : Sql) (publisher : Publisher) (texts : Texts) where
  -- What the first of two equal requests leaves answers the second one as it answered the first.
  abbrev pub Repeats :
      CreateRequest → Outcome Thrown BookingDto × ServiceWorld sql publisher → Type 0
  Repeats r (throws _, after) = Unit
  Repeats r (ok b, after) =
      (now : ℕ) (ids : FreshIds)
      → create_booking sql publisher texts now ids r after ≡ (ok b, after)

  recover_throws :
      (input : CreateBookingInput) (e : Thrown) (db : BookingDb sql) (k : ℕ)
      → truthy_key input.idempotency_key ≡ some k
      → find_idempotency_record sql k db ≡ none
      → sql.find_by booking_schema k db.bookings ≡ none
      → is_ok (recover sql input (throws e) db) ≡ false
  unfolding replay find_idempotency_record
  recover_throws input unique_violation db k t f n = ground (arith, t, f, n)
  recover_throws input _ db k t f n = refl

  made_refused :
      (now : ℕ) (input : CreateBookingInput) (o : OutboxInput) (w : ServiceWorld sql publisher)
      (k : ℕ) {e : Thrown}
      → truthy_key input.idempotency_key ≡ some k
      → find_idempotency_record sql k w.db ≡ none
      → sql.find_by booking_schema k w.db.bookings ≡ none
      → insert_booking sql now input o w.db ≡ throws e
      → is_ok (make_booking sql publisher now input o w).0 ≡ false
  unfolding make_booking create_booking_with_outbox
  made_refused now input o w k {e} t f n h = ground (arith, h, recover_throws input e w.db k t f n)

  module _ (now : ℕ) (ids : FreshIds) (r : CreateRequest) (w : ServiceWorld sql publisher) (k : ℕ)
      (t : truthy_key r.idempotency_key ≡ some k) where
    Repeats-known :
        (row : IdempotencyRow)
        → find_idempotency_record sql k w.db ≡ some row
        → (a : Outcome Thrown BookingDto)
        → replayed sql publisher row.request_fingerprint row.response (request_fingerprint texts r)
          ≡ a
        → Repeats r (a, w)
    Repeats-known row f (throws e) h = tt
    Repeats-known row f (ok b) h = λ now' ids'.
        create_booking-known sql publisher texts now' ids' r w k t f ∙ ap (λ x. (x, w)) h

    Repeats-throws :
        (x : Outcome Thrown BookingDto × ServiceWorld sql publisher)
        → is_ok x.0 ≡ false
        → Repeats r x
    Repeats-throws (throws e, v) h = tt
    Repeats-throws (ok b, v) h = absurd (ground arith)

    Repeats-drained :
        (b : BookingDto) (x : Outcome Thrown (Unit {0}) × ServiceWorld sql publisher)
        → ((now' : ℕ) (ids' : FreshIds)
            → create_booking sql publisher texts now' ids' r x.1 ≡ (ok b, x.1))
        → Repeats r (after_drain sql publisher b x)
    Repeats-drained b (throws e, v) h = tt
    Repeats-drained b (ok _, v) h = h

    create_booking-new :
        (o : Outcome Thrown (BookingDto × BookingDb sql))
        → insert_booking sql now (create_input texts ids r) (reserve_seats_message now ids r) w.db
          ≡ o
        → find_idempotency_record sql k w.db ≡ none
        → sql.find_by booking_schema k w.db.bookings ≡ none
        → Repeats r (create_booking sql publisher texts now ids r w)
    unfolding create_booking
    create_booking-new (throws e) h f n =
        rw (create_booking, t, f)
          (Repeats-throws
            (make_booking sql publisher now (create_input texts ids r)
              (reserve_seats_message now ids r) w)
            (made_refused now (create_input texts ids r) (reserve_seats_message now ids r) w k t f n
              h))
    create_booking-new (ok (b, db')) h f n =
        let made = create_booking-made sql publisher texts now ids r w k t f h in
        let x = drain sql publisher now (record w { db = db' }) in
        rw made (
          Repeats-drained b x (λ now' ids'.
            let (_, again) =
              create_booking_replays sql publisher texts now ids r w k t f h now' ids' r t in
            subst
              (λ y. create_booking sql publisher texts now' ids' r y.1 ≡ (
                replayed sql publisher (request_fingerprint texts r) b
                    (request_fingerprint texts r),
                y.1,
              ))
              (made ∙ after_drain_split sql publisher b x) again
            ∙ ap (λ same. (if same then ok b else throws idempotency_key_reused, x.1))
                (fingerprint_eq_refl (request_fingerprint texts r))))

    -- Where no booking has the key without a record of it: a request with a key that is answered
    -- with a booking is answered with the same booking when it is sent again, at any time and with
    -- any new identifiers, and the second time nothing is written and nothing is sent.
    pub create_booking-Repeats :
        (find_idempotency_record sql k w.db ≡ none
          → sql.find_by booking_schema k w.db.bookings ≡ none)
        → Repeats r (create_booking sql publisher texts now ids r w)
    create_booking-Repeats recorded = elim (Option-cases (find_idempotency_record sql k w.db)) [
      | inl f ↦
          create_booking-new
            (insert_booking sql now (create_input texts ids r) (reserve_seats_message now ids r)
              w.db)
            refl f (recorded f)
      | inr (row, f) ↦
          rw (create_booking-known sql publisher texts now ids r w k t f)
            (Repeats-known row f _ refl)
    ]
