-- ===== src/Event/Messaging.antt =====
-- `createEventMessaging`, services/event-service/src/infrastructure/messaging/messaging.bootstrap.ts,
-- and the two consumers beside it, reserve-seats.consumer.ts and release-seats.consumer.ts.
use event_booking_system_mic.Common.{◌∷◌, ℕ, List, Outcome, [], ok, throws}
use event_booking_system_mic.Event.Inventory.Service.{
  reserve_seats, release_seats, FreshIds, InventoryWorld,
}
use event_booking_system_mic.Contracts.Json.{Json, Formats}
use event_booking_system_mic.Sql.{Sql}
use event_booking_system_mic.Event.Cache.{EventCache}
use event_booking_system_mic.Outbox.Dispatch.{Publisher}
use event_booking_system_mic.Contracts.{
  MessageEnvelope, Message, ReserveSeatsPayload, BookingEventQuantity, Topic, Payload, with_payload,
}
use event_booking_system_mic.Messaging.{KafkaSubscription}
use event_booking_system_mic.Errors.{Thrown}
use event_booking_system_mic.Messaging.Kafka.{create_kafka_subscription}

module _ (sql : Sql) (cache : EventCache) (publisher : Publisher) (f : Formats) where
  abbrev pub World : Type 0
  World = InventoryWorld sql cache publisher

  -- `handle` of `BookingReservationConsumer`
  unfoldable pub handle_reservation :
      ℕ → FreshIds → MessageEnvelope ReserveSeatsPayload → World → Outcome Thrown (Unit {0}) × World
  handle_reservation now ids m w = reserve_seats sql cache publisher now ids m w

  -- `handle` of `ReleaseSeatsConsumer`
  unfoldable pub handle_release :
      ℕ → MessageEnvelope BookingEventQuantity → World → Outcome Thrown (Unit {0}) × World
  handle_release now m w =
      let (r, w') = release_seats sql cache publisher now m w in
      (elim r [ ok _ ↦ ok tt | throws e ↦ throws e ], w')

  -- `(message) => reserveConsumer.handle(message)`; the schema lets no other payload through.
  unfoldable pub on_reserve_seats :
      ℕ → FreshIds → Message → World → Outcome Thrown (Unit {0}) × World
  on_reserve_seats now ids m w = elim m.payload [
    | Payload.reserve_seats p ↦ handle_reservation now ids (with_payload m p) w
    | Payload.seats_reserved _ ↦ (ok tt, w)
    | Payload.seat_reservation_failed _ ↦ (ok tt, w)
    | Payload.booking_confirmed _ ↦ (ok tt, w)
    | Payload.booking_failed _ ↦ (ok tt, w)
    | Payload.booking_cancelled _ ↦ (ok tt, w)
  ]

  -- `(message) => releaseConsumer.handle(message)`, in the same way
  unfoldable pub on_booking_cancelled : ℕ → Message → World → Outcome Thrown (Unit {0}) × World
  on_booking_cancelled now m w = elim m.payload [
    | Payload.booking_cancelled p ↦ handle_release now (with_payload m p) w
    | Payload.reserve_seats _ ↦ (ok tt, w)
    | Payload.seats_reserved _ ↦ (ok tt, w)
    | Payload.seat_reservation_failed _ ↦ (ok tt, w)
    | Payload.booking_confirmed _ ↦ (ok tt, w)
    | Payload.booking_failed _ ↦ (ok tt, w)
  ]

  -- The subscriptions that `createEventMessaging` gives its runner.
  abbrev pub event_subscriptions : ℕ → FreshIds → List (KafkaSubscription Json World)
  event_subscriptions now ids =
      create_kafka_subscription f Topic.reserve_seats (on_reserve_seats now ids)
      ∷ create_kafka_subscription f Topic.booking_cancelled (on_booking_cancelled now)
      ∷ []
