-- ===== src/Booking/Lifecycle/Traces.antt =====
-- Interleavings of the service's transactions: HTTP requests, deliveries of messages and the outbox
-- dispatcher, in any order. `updateStatus`, which sets any status, is called by `markConfirmed` and
-- `markFailed` alone, which no route or consumer calls, and is no step.
use event_booking_system_mic.Sql.{Sql}
use event_booking_system_mic.Contracts.{BookingStatus}
use event_booking_system_mic.Booking.Types.{
  BookingRecord, BookingDb, CreateBookingInput, booking_schema, SeatsReservedInput,
  SeatReservationFailedInput, CancelBookingInput,
}
use event_booking_system_mic.Common.{ℕ, inl, ◌≡◌, inr, ◌≢◌, some, ◌⊎◌, refl, arith, ◌∙◌}
use event_booking_system_mic.Booking.Lifecycle.Moves.{
  Allowed, NextAt, confirm, fail, kept, Next, moved,
}
use event_booking_system_mic.Booking.Lifecycle.Transactions.{
  create_booking_with_outbox-NextAt, process_seats_reserved-NextAt,
  process_seat_reservation_failed-NextAt, cancel_booking_with_outbox-NextAt,
}
use event_booking_system_mic.Outbox.{OutboxInput}
use event_booking_system_mic.Booking.Repository.Create.{create_booking_with_outbox}
use event_booking_system_mic.Booking.Repository.Settle.{
  process_seats_reserved_message, process_seat_reservation_failed_message,
  cancel_booking_with_outbox, set_status,
}

module _ (sql : Sql) where
  pub data Step (before after : BookingDb sql) : Type 0 where
    create :
        (now : ℕ) (input : CreateBookingInput) (o : OutboxInput)
        → input.status ≡ BookingStatus.pending
        → after ≡ (create_booking_with_outbox sql now input o before).1
        → Step before after
    seats_reserved :
        (now : ℕ) (input : SeatsReservedInput)
        → after ≡ (process_seats_reserved_message sql now input before).1
        → Step before after
    seat_reservation_failed :
        (now : ℕ) (input : SeatReservationFailedInput)
        → after ≡ (process_seat_reservation_failed_message sql now input before).1
        → Step before after
    cancel :
        (now : ℕ) (input : CancelBookingInput)
        → after ≡ (cancel_booking_with_outbox sql now input before).1
        → Step before after
    -- the outbox statements, and whatever else leaves `bookings` alone
    elsewhere : after.bookings ≡ before.bookings → Step before after

  pub data Reach (s : BookingDb sql) : BookingDb sql → Type 0 where
    here : Reach s s
    next : {t u : BookingDb sql} → Reach s t → Step t u → Reach s u

  pub Step-NextAt : {s t : BookingDb sql} → Step s t → (j : ℕ) → NextAt sql j s t
  Step-NextAt {s} (create now input o p e) j =
      rw e (create_booking_with_outbox-NextAt sql now input o s j p)
  Step-NextAt {s} (seats_reserved now input e) j =
      rw e (process_seats_reserved-NextAt sql now input s j)
  Step-NextAt {s} (seat_reservation_failed now input e) j =
      rw e (process_seat_reservation_failed-NextAt sql now input s j)
  Step-NextAt {s} (cancel now input e) j =
      rw e (cancel_booking_with_outbox-NextAt sql now input s j)
  Step-NextAt (elsewhere e) j = kept (rw e)

  -- FAILED and CANCELLED are final.
  abbrev pub IsSettled : BookingRecord → Type 0
  IsSettled b = (b.status ≡ BookingStatus.failed) ⊎ (b.status ≡ BookingStatus.cancelled)

  -- What a client was told of a booking besides its status.
  pub record SameRequest (b b' : BookingRecord) : Type 0 where
    pub id : b'.id ≡ b.id
    pub user_id : b'.user_id ≡ b.user_id
    pub event_id : b'.event_id ≡ b.event_id
    pub quantity : b'.quantity ≡ b.quantity
    pub idempotency_key : b'.idempotency_key ≡ b.idempotency_key
    pub created_at : b'.created_at ≡ b.created_at

  -- The order of the statuses in a booking's life.
  abbrev pub Later : BookingStatus → BookingStatus → Type 0
  Later BookingStatus.pending s = s ≢ BookingStatus.expired
  Later BookingStatus.confirmed s = (s ≡ BookingStatus.confirmed) ⊎ (s ≡ BookingStatus.cancelled)
  Later BookingStatus.failed s = s ≡ BookingStatus.failed
  Later BookingStatus.cancelled s = s ≡ BookingStatus.cancelled
  Later BookingStatus.expired s = s ≡ BookingStatus.expired

  Later-refl : (s : BookingStatus) → Later s s
  Later-refl BookingStatus.pending = λ e. cc
  Later-refl BookingStatus.confirmed = inl refl
  Later-refl BookingStatus.failed = refl
  Later-refl BookingStatus.cancelled = refl
  Later-refl BookingStatus.expired = refl

  Later-trans : (a b c : BookingStatus) → Later a b → Later b c → Later a c
  Later-trans BookingStatus.pending b c h k = ground arith
  Later-trans BookingStatus.confirmed b c h k = ground arith
  Later-trans a b c h k = ground arith

  Allowed-Later : {a b : BookingStatus} → Allowed a b → Later a b
  Allowed-Later confirm = λ e. cc
  Allowed-Later fail = λ e. cc
  Allowed-Later Allowed.cancel = inr refl

  -- A booking that is there is there later, for the same request.
  pub record Lives (b : BookingRecord) (j : ℕ) (t : BookingDb sql) : Type 0 where
    pub now : BookingRecord
    pub found : sql.find booking_schema j t.bookings ≡ some now
    pub same : SameRequest b now
    pub later : Later b.status now.status

  SameRequest-trans : {a b c : BookingRecord} → SameRequest a b → SameRequest b c → SameRequest a c
  SameRequest-trans h k = record {
    id = k.id ∙ h.id;
    user_id = k.user_id ∙ h.user_id;
    event_id = k.event_id ∙ h.event_id;
    quantity = k.quantity ∙ h.quantity;
    idempotency_key = k.idempotency_key ∙ h.idempotency_key;
    created_at = k.created_at ∙ h.created_at;
  }

  SameRequest-set_status :
      (b : BookingRecord) (to : BookingStatus) (now : ℕ) → SameRequest b (set_status to now b)
  SameRequest-set_status b to now = record {
    id = refl;
    user_id = refl;
    event_id = refl;
    quantity = refl;
    idempotency_key = refl;
    created_at = refl;
  }

  SameRequest-refl : (b : BookingRecord) → SameRequest b b
  SameRequest-refl b = record {
    id = refl;
    user_id = refl;
    event_id = refl;
    quantity = refl;
    idempotency_key = refl;
    created_at = refl;
  }

  -- One move keeps a booking alive.
  Lives-step :
      (b x : BookingRecord) (j : ℕ) (s t : BookingDb sql)
      → sql.find booking_schema j s.bookings ≡ some x
      → SameRequest b x
      → Later b.status x.status
      → NextAt sql j s t
      → Lives b j t
  Lives-step b x j s t f r l (kept e) = record { now = x; found = e ∙ f; same = r; later = l }
  Lives-step b x j s t f r l (Next.created y none_before e p) = absurd (ground arith)
  Lives-step b x j s t f r l (moved y {from} {to} now a e p e') =
      let same : y ≡ x = ground arith in
      record {
        now = set_status to now y;
        found = e';
        same = rw same (SameRequest-trans r (SameRequest-set_status x to now));
        later = Later-trans b.status from to (rw (← p, same) l) (Allowed-Later a);
      }

  -- Along any interleaving a booking that is there stays there for the same request, and its status
  -- only goes forward: CONFIRMED stays or becomes CANCELLED, FAILED and CANCELLED are final.
  pub Reach-Lives :
      (b : BookingRecord) (j : ℕ) {s t : BookingDb sql}
      → sql.find booking_schema j s.bookings ≡ some b
      → Reach s t
      → Lives b j t
  Reach-Lives b j f here = record {
    now = b;
    found = f;
    same = SameRequest-refl b;
    later = Later-refl b.status;
  }
  Reach-Lives b j f (next {t} {u} r st) =
      let mid = Reach-Lives b j f r in
      Lives-step b mid.now j t u mid.found mid.same mid.later (Step-NextAt st j)

  settled_step :
      (b : BookingRecord) (j : ℕ) (s t : BookingDb sql)
      → IsSettled b
      → sql.find booking_schema j s.bookings ≡ some b
      → NextAt sql j s t
      → sql.find booking_schema j t.bookings ≡ some b
  settled_step b j s t h f (kept e) = e ∙ f
  settled_step b j s t h f (Next.created y none_before e p) = absurd (ground arith)
  settled_step b j s t h f (moved y now confirm e p e') = absurd (ground arith)
  settled_step b j s t h f (moved y now fail e p e') = absurd (ground arith)
  settled_step b j s t h f (moved y now Allowed.cancel e p e') = absurd (ground arith)

  -- The row of a FAILED or CANCELLED booking is never written again.
  pub Reach-settled :
      (b : BookingRecord) (j : ℕ) {s t : BookingDb sql}
      → IsSettled b
      → sql.find booking_schema j s.bookings ≡ some b
      → Reach s t
      → sql.find booking_schema j t.bookings ≡ some b
  Reach-settled b j h f here = f
  Reach-settled b j h f (next {t} {u} r st) =
      settled_step b j t u h (Reach-settled b j h f r) (Step-NextAt st j)
