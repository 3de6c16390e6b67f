-- ===== src/Notification/Messaging.antt =====
-- `createNotificationMessaging`, services/notification-service/src/infrastructure/messaging/
-- messaging.bootstrap.ts: the subscriptions of the notification service.
use event_booking_system_mic.Common.{◌∷◌, ℕ, Bool, Outcome, List, ok, []}
use event_booking_system_mic.Contracts.Json.{Json, Formats}
use event_booking_system_mic.Notification.{
  NotificationSink, handle_booking_confirmed, handle_booking_failed, handle_booking_cancelled,
}
use event_booking_system_mic.Contracts.{Message, Payload, Topic, with_payload}
use event_booking_system_mic.Errors.{Thrown}
use event_booking_system_mic.Messaging.{KafkaSubscription}
use event_booking_system_mic.Messaging.Kafka.{create_kafka_subscription}

module _ (sink : NotificationSink) (f : Formats) where
  -- What a handler answers is not looked at.
  abbrev handled : Bool × sink.State → Outcome Thrown (Unit {0}) × sink.State
  handled (stored, s) = (ok tt, s)

  -- The handler of each topic; the schema lets only the topic's payload through.
  unfoldable pub on_notification : ℕ → Message → sink.State → Outcome Thrown (Unit {0}) × sink.State
  on_notification now m s = elim m.payload [
    | Payload.booking_confirmed p ↦ handled (handle_booking_confirmed sink now (with_payload m p) s)
    | Payload.booking_failed p ↦ handled (handle_booking_failed sink now (with_payload m p) s)
    | Payload.booking_cancelled p ↦ handled (handle_booking_cancelled sink now (with_payload m p) s)
    | Payload.reserve_seats _ ↦ (ok tt, s)
    | Payload.seats_reserved _ ↦ (ok tt, s)
    | Payload.seat_reservation_failed _ ↦ (ok tt, s)
  ]

  -- The subscriptions that `createNotificationMessaging` gives its runner.
  abbrev pub notification_subscriptions : ℕ → List (KafkaSubscription Json sink.State)
  notification_subscriptions now =
      create_kafka_subscription f Topic.booking_confirmed (on_notification now)
      ∷ create_kafka_subscription f Topic.booking_failed (on_notification now)
      ∷ create_kafka_subscription f Topic.booking_cancelled (on_notification now)
      ∷ []
