-- ===== src/Booking/Consumers.antt =====
-- `BookingEventsConsumer`, services/booking-service/src/infrastructure/messaging/consumers/
-- seats-reserved.consumer.ts, on the repository and the dispatcher. Logs and metrics are left out.
pub mod Redelivery
use event_booking_system_mic.Sql.{Sql}
use event_booking_system_mic.Common.{ℕ, Outcome, throws, ok, none}
use event_booking_system_mic.Booking.Service.{FreshIds, ServiceWorld, drain}
use event_booking_system_mic.Outbox.Dispatch.{Publisher}
use event_booking_system_mic.Contracts.{
  MessageEnvelope, BookingEventQuantity, BookingEventFailure, Topic, Payload,
}
use event_booking_system_mic.Errors.{Thrown}
use event_booking_system_mic.Booking.Types.{
  SeatsReservedInput, ProcessSeatsReservedResult, ProcessSeatReservationFailedResult,
  SeatReservationFailedInput,
}
use event_booking_system_mic.Outbox.{OutboxInput}
use event_booking_system_mic.Booking.Repository.Settle.{
  process_seat_reservation_failed_message, process_seats_reserved_message,
}

abbrev pub confirmed_message : ℕ → FreshIds → MessageEnvelope BookingEventQuantity → OutboxInput
confirmed_message now ids m = record {
  id = ids.outbox_id;
  topic = Topic.booking_confirmed;
  message = record {
    event_id = none;
    message_id = ids.message_id;
    correlation_id = m.correlation_id;
    timestamp = now;
    version = 1;
    payload = Payload.booking_confirmed m.payload;
  };
}

abbrev pub failed_message : ℕ → FreshIds → MessageEnvelope BookingEventFailure → OutboxInput
failed_message now ids m = record {
  id = ids.outbox_id;
  topic = Topic.booking_failed;
  message = record {
    event_id = none;
    message_id = ids.message_id;
    correlation_id = m.correlation_id;
    timestamp = now;
    version = 1;
    payload = Payload.booking_failed m.payload;
  };
}

module _ (sql : Sql) (publisher : Publisher) where
  -- The rest of `handleSeatsReserved`, from the repository's answer.
  unfoldable pub finish_reserved :
      ℕ
      → Outcome Thrown ProcessSeatsReservedResult
      → ServiceWorld sql publisher
      → Outcome Thrown (Unit {0}) × ServiceWorld sql publisher
  finish_reserved now (throws e) w = (throws e, w)
  finish_reserved now (ok ProcessSeatsReservedResult.duplicate) w = (ok tt, w)
  finish_reserved now (ok (ProcessSeatsReservedResult.rejected _)) w = (ok tt, w)
  finish_reserved now (ok (ProcessSeatsReservedResult.confirmed _ _)) w = drain sql publisher now w

  abbrev pub reserved_input :
      ℕ → FreshIds → MessageEnvelope BookingEventQuantity → SeatsReservedInput
  reserved_input now ids m = record {
    message_id = m.message_id;
    booking_id = m.payload.booking_id;
    event_id = m.payload.event_id;
    quantity = m.payload.quantity;
    outbox_on_success = confirmed_message now ids m;
  }

  -- `handleSeatsReserved`
  unfoldable pub handle_seats_reserved :
      ℕ
      → FreshIds
      → MessageEnvelope BookingEventQuantity
      → ServiceWorld sql publisher
      → Outcome Thrown (Unit {0}) × ServiceWorld sql publisher
  handle_seats_reserved now ids m w =
      let (r, db) = process_seats_reserved_message sql now (reserved_input now ids m) w.db in
      finish_reserved now r (record w { db = db })

  -- The rest of `handleSeatReservationFailed`, from the repository's answer.
  unfoldable pub finish_failed :
      ℕ
      → Outcome Thrown ProcessSeatReservationFailedResult
      → ServiceWorld sql publisher
      → Outcome Thrown (Unit {0}) × ServiceWorld sql publisher
  finish_failed now (throws e) w = (throws e, w)
  finish_failed now (ok ProcessSeatReservationFailedResult.duplicate) w = (ok tt, w)
  finish_failed now (ok (ProcessSeatReservationFailedResult.rejected _)) w = (ok tt, w)
  finish_failed now (ok (ProcessSeatReservationFailedResult.failed _ _)) w =
      drain sql publisher now w

  abbrev pub failed_input :
      ℕ → FreshIds → MessageEnvelope BookingEventFailure → SeatReservationFailedInput
  failed_input now ids m = record {
    message_id = m.message_id;
    booking_id = m.payload.booking_id;
    event_id = m.payload.event_id;
    reason = m.payload.reason;
    outbox_on_failure = failed_message now ids m;
  }

  -- `handleSeatReservationFailed`
  unfoldable pub handle_seat_reservation_failed :
      ℕ
      → FreshIds
      → MessageEnvelope BookingEventFailure
      → ServiceWorld sql publisher
      → Outcome Thrown (Unit {0}) × ServiceWorld sql publisher
  handle_seat_reservation_failed now ids m w =
      let (r, db) = process_seat_reservation_failed_message sql now (failed_input now ids m) w.db in
      finish_failed now r (record w { db = db })
