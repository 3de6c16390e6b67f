-- ===== src/Booking/Messaging.antt =====
-- `createBookingMessaging`, services/booking-service/src/infrastructure/messaging/
-- messaging.bootstrap.ts: the subscriptions of the booking service.
mod Tests
use event_booking_system_mic.Common.{◌∷◌, ℕ, List, Outcome, [], ok}
use event_booking_system_mic.Booking.Service.{FreshIds, ServiceWorld}
use event_booking_system_mic.Contracts.Json.{Json, Formats}
use event_booking_system_mic.Sql.{Sql}
use event_booking_system_mic.Outbox.Dispatch.{Publisher}
use event_booking_system_mic.Contracts.{Message, Topic, Payload, with_payload}
use event_booking_system_mic.Messaging.{KafkaSubscription}
use event_booking_system_mic.Messaging.Kafka.{create_kafka_subscription}
use event_booking_system_mic.Errors.{Thrown}
use event_booking_system_mic.Booking.Consumers.{
  handle_seats_reserved, handle_seat_reservation_failed,
}

module _ (sql : Sql) (publisher : Publisher) (f : Formats) where
  -- `(message) => consumer.handleSeatsReserved(message)`; the schema lets no other payload through.
  unfoldable pub on_seats_reserved :
      ℕ
      → FreshIds
      → Message
      → ServiceWorld sql publisher
      → Outcome Thrown (Unit {0}) × ServiceWorld sql publisher
  on_seats_reserved now ids m w = elim m.payload [
    | Payload.seats_reserved p ↦ handle_seats_reserved sql publisher now ids (with_payload m p) w
    | Payload.reserve_seats _ ↦ (ok tt, w)
    | Payload.seat_reservation_failed _ ↦ (ok tt, w)
    | Payload.booking_confirmed _ ↦ (ok tt, w)
    | Payload.booking_failed _ ↦ (ok tt, w)
    | Payload.booking_cancelled _ ↦ (ok tt, w)
  ]

  -- `(message) => consumer.handleSeatReservationFailed(message)`, in the same way
  unfoldable pub on_seat_reservation_failed :
      ℕ
      → FreshIds
      → Message
      → ServiceWorld sql publisher
      → Outcome Thrown (Unit {0}) × ServiceWorld sql publisher
  on_seat_reservation_failed now ids m w = elim m.payload [
    | Payload.seat_reservation_failed p ↦
        handle_seat_reservation_failed sql publisher now ids (with_payload m p) w
    | Payload.reserve_seats _ ↦ (ok tt, w)
    | Payload.seats_reserved _ ↦ (ok tt, w)
    | Payload.booking_confirmed _ ↦ (ok tt, w)
    | Payload.booking_failed _ ↦ (ok tt, w)
    | Payload.booking_cancelled _ ↦ (ok tt, w)
  ]

  -- The subscriptions that `createBookingMessaging` gives its runner.
  abbrev pub booking_subscriptions :
      ℕ → FreshIds → List (KafkaSubscription Json (ServiceWorld sql publisher))
  booking_subscriptions now ids =
      create_kafka_subscription f Topic.seats_reserved (on_seats_reserved now ids)
      ∷ create_kafka_subscription f Topic.seat_reservation_failed
          (on_seat_reservation_failed now ids)
      ∷ []
