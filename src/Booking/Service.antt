-- ===== src/Booking/Service.antt =====
-- `BookingsService`, services/booking-service/src/modules/bookings/booking.service.ts. The identifiers
-- that `randomUUID` makes are arguments, and so are the texts that a UUID in lower case and a number
-- in base 10 have. Logs and metrics are left out.
pub mod Replay
pub mod Repeat
pub mod Refusals
pub mod Tests
use event_booking_system_mic.Common.{
  ◌∷◌, ◌++◌, ℕ, Option, List, Outcome, none, some, throws, ok, if◌then◌else◌,
}
use event_booking_system_mic.Errors.{Thrown, app_error}
use event_booking_system_mic.Booking.Types.{
  CreateBookingInput, Text, BookingDto, BookingDb, BookingProcessingFailureReason,
  booking_not_found, ProcessSeatsReservedResult, ProcessSeatReservationFailedResult,
  CancelBookingResult, SeatReservationFailedInput, SeatsReservedInput,
}
use event_booking_system_mic.Sql.{Sql}
use event_booking_system_mic.Contracts.{
  UuidText, MessageEnvelope, BookingStatus, BookingEventFailure, Topic, BookingEventQuantity,
  canonical, Payload,
}
use event_booking_system_mic.Outbox.{OutboxInput}
use event_booking_system_mic.Outbox.Dispatch.{Publisher, dispatch_pending, Dispatcher}
use event_booking_system_mic.Booking.Repository.Settle.{
  update_status, process_seats_reserved_message, process_seat_reservation_failed_message,
  cancel_booking_with_outbox,
}
use event_booking_system_mic.Booking.Repository.Queries.{find_by_user_id, find_by_id}
use event_booking_system_mic.Booking.Repository.Create.{
  create_booking_with_outbox, find_idempotency_record, idempotency_key_reused,
}
use event_booking_system_mic.Booking.Repository.Rows.{truthy_key, fingerprint_eq}

-- The identifiers that one request makes.
pub record FreshIds : Type 0 where
  pub booking_id : ℕ
  pub outbox_id : ℕ
  pub message_id : ℕ

pub record CreateRequest : Type 0 where
  pub user_id : UuidText
  pub event_id : UuidText
  pub quantity : ℕ
  pub idempotency_key : Option ℕ

abbrev pub booking_not_found_error : Thrown
booking_not_found_error =
    app_error
      (record { code = "BOOKING_NOT_FOUND"; message = "Booking not found"; status_code = 404 })

abbrev pub invalid_status_error : Thrown
invalid_status_error = app_error (record {
  code = "INVALID_BOOKING_STATUS";
  message = "Invalid booking status";
  status_code = 409;
})

-- The texts that JavaScript makes of a UUID in lower case, and of a quantity.
pub record Texts : Type 0 where
  pub uuid : ℕ → Text
  pub decimal : ℕ → Text

-- `createBookingRequestFingerprint`: `["v1", user, event, quantity].join(":")`, with its code units.
unfoldable pub request_fingerprint : Texts → CreateRequest → Text
request_fingerprint texts r =
    118
    ∷ 49
    ∷ 58
    ∷ (texts.uuid r.user_id.value
        ++ (58 ∷ (texts.uuid r.event_id.value ++ (58 ∷ texts.decimal r.quantity))))

-- What `createBooking` hands to the repository.
abbrev pub create_input : Texts → FreshIds → CreateRequest → CreateBookingInput
create_input texts ids r = record {
  id = ids.booking_id;
  user_id = r.user_id.value;
  event_id = r.event_id.value;
  quantity = r.quantity;
  status = BookingStatus.pending;
  idempotency_key = r.idempotency_key;
  request_fingerprint = request_fingerprint texts r;
}

abbrev pub reserve_seats_message : ℕ → FreshIds → CreateRequest → OutboxInput
reserve_seats_message now ids r = record {
  id = ids.outbox_id;
  topic = Topic.reserve_seats;
  message = record {
    event_id = some r.event_id;
    message_id = ids.message_id;
    correlation_id = ids.booking_id;
    timestamp = now;
    version = 1;
    payload = Payload.reserve_seats (record {
      booking_id = ids.booking_id;
      event_id = r.event_id;
      user_id = r.user_id;
      quantity = r.quantity;
    });
  };
}

abbrev pub cancelled_message : ℕ → FreshIds → BookingDto → OutboxInput
cancelled_message now ids b = record {
  id = ids.outbox_id;
  topic = Topic.booking_cancelled;
  message = record {
    event_id = some (canonical b.event_id);
    message_id = ids.message_id;
    correlation_id = b.id;
    timestamp = now;
    version = 1;
    payload =
        Payload.booking_cancelled
          (record { booking_id = b.id; event_id = canonical b.event_id; quantity = b.quantity });
  };
}

module _ (sql : Sql) (publisher : Publisher) where
  pub record ServiceWorld : Type 0 where
    pub db : BookingDb sql
    pub bus : publisher.Bus
    pub dispatcher : Dispatcher sql publisher
    -- the error of `claimOutboxMessages` at a time at which the database refuses the statement
    pub refuses_claim : ℕ → Option Thrown

  -- `dispatchPending` at a time at which the database takes the claim.
  unfoldable pub dispatch_outbox : ℕ → ServiceWorld → ServiceWorld
  dispatch_outbox now w =
      let (d, o) =
        dispatch_pending sql publisher "Outbox publish failed" 25 now w.dispatcher
          (record { outbox = w.db.outbox; bus = w.bus }) in
      record w { db = record w.db { outbox = o.outbox }; bus = o.bus; dispatcher = d }

  -- How `dispatchPending` ends: it makes no claim while another run is under way, and has no `catch`.
  abbrev pub claim_error : ℕ → ServiceWorld → Option Thrown
  claim_error now w = if w.dispatcher.draining then none else w.refuses_claim now

  -- `await this.outboxDispatcher.dispatchPending()`: the `finally` clears the flag of a run that throws,
  -- which was clear before it.
  unfoldable pub drain : ℕ → ServiceWorld → Outcome Thrown (Unit {0}) × ServiceWorld
  drain now w = elim (claim_error now w) [
    | some e ↦ (throws e, w)
    | none ↦ (ok tt, dispatch_outbox now w)
  ]

  -- What a call returns that has committed and then waits for the dispatcher.
  abbrev pub after_drain :
      {A : Type 0} → A → Outcome Thrown (Unit {0}) × ServiceWorld → Outcome Thrown A × ServiceWorld
  after_drain a (ok _, w) = (ok a, w)
  after_drain a (throws e, w) = (throws e, w)

  -- From the repository's call to the end of `createBooking`.
  unfoldable pub make_booking :
      ℕ → CreateBookingInput → OutboxInput → ServiceWorld → Outcome Thrown BookingDto × ServiceWorld
  make_booking now input o w =
      let (r, db) = create_booking_with_outbox sql now input o w.db in
      let w' : ServiceWorld = record w { db = db } in
      elim r [ throws e ↦ (throws e, w') | ok booking ↦ after_drain booking (drain now w') ]

  -- `createBooking`
  unfoldable pub create_booking :
      Texts → ℕ → FreshIds → CreateRequest → ServiceWorld → Outcome Thrown BookingDto × ServiceWorld
  create_booking texts now ids r w =
      let input = create_input texts ids r in
      let o = reserve_seats_message now ids r in
      elim (truthy_key r.idempotency_key) [
        | none ↦ make_booking now input o w
        | some key ↦ elim (find_idempotency_record sql key w.db) [
          | none ↦ make_booking now input o w
          | some existing ↦ (
            if fingerprint_eq existing.request_fingerprint (request_fingerprint texts r)
                then ok existing.response
                else throws idempotency_key_reused,
            w,
          )
        ]
      ]

  -- `getBookingById`
  unfoldable pub get_booking_by_id : ℕ → ServiceWorld → Outcome Thrown BookingDto
  get_booking_by_id id w = elim (find_by_id sql id w.db) [
    | none ↦ throws booking_not_found_error
    | some booking ↦ ok booking
  ]

  -- `listBookingsForUser`
  unfoldable pub list_bookings_for_user : ℕ → ℕ → ℕ → ServiceWorld → List BookingDto
  list_bookings_for_user user_id page page_size w = find_by_user_id sql user_id page page_size w.db

  abbrev pub refused_cancel : BookingProcessingFailureReason → Thrown
  refused_cancel booking_not_found = booking_not_found_error
  refused_cancel _ = invalid_status_error

  -- `cancelBooking`
  unfoldable pub cancel_booking :
      ℕ → FreshIds → ℕ → ServiceWorld → Outcome Thrown BookingDto × ServiceWorld
  cancel_booking now ids id w = elim (get_booking_by_id id w) [
    | throws e ↦ (throws e, w)
    | ok booking ↦
        let (r, db) =
          cancel_booking_with_outbox sql now
            (record { id = id; outbox = cancelled_message now ids booking }) w.db in
        let w' : ServiceWorld = record w { db = db } in
        elim r [
          | throws e ↦ (throws e, w')
          | ok (CancelBookingResult.rejected reason) ↦ (throws (refused_cancel reason), w')
          | ok (CancelBookingResult.cancelled booking' _) ↦ after_drain booking' (drain now w')
        ]
  ]

  -- `markConfirmed` and `markFailed`
  unfoldable pub mark_as :
      BookingStatus → ℕ → ℕ → ServiceWorld → Outcome Thrown BookingDto × ServiceWorld
  mark_as status now id w =
      let (r, db) = update_status sql now id status w.db in
      let w' : ServiceWorld = record w { db = db } in
      elim r [ none ↦ (throws booking_not_found_error, w') | some b ↦ (ok b, w') ]
