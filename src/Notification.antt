-- ===== src/Notification.antt =====
-- services/notification-service: the sink of notifications, in memory
-- (src/infrastructure/notifications/notification-store.ts) and in the database
-- (src/infrastructure/notifications/notification.repository.ts), and the handlers of
-- src/modules/notifications/notification-consumer.ts, which work on either.
use Prim.Native.String.{String}
pub mod App
pub mod Messaging
pub mod Once
pub mod Refinement
pub mod Tests
use event_booking_system_mic.Common.{
  ◌++◌, Bool, List, ℕ, take, if◌then◌else◌, Option, some, none, ◌*◌, ◌-◌, false, true, drop, ◌∷◌,
  [],
}
use event_booking_system_mic.Contracts.{
  MessageEnvelope, BookingEventFailure, UuidText, BookingEventQuantity, FailureReason,
}
use event_booking_system_mic.Sql.{mem}

pub data NotificationType : Type 0 where
  booking_confirmed booking_failed booking_cancelled : NotificationType

-- `NotificationRecord`, less its constant fields `service` and `level`.
pub record NotificationRecord : Type 0 where
  pub timestamp : ℕ
  pub message : String
  pub type : NotificationType
  pub message_id : ℕ
  pub correlation_id : ℕ
  pub booking_id : ℕ
  pub event_id : UuidText
  pub reason : Option FailureReason

-- `NotificationSink`: what appending answers, and the records in the order they were stored.
pub record NotificationSink : Type 1 where
  pub State : Type 0
  pub append_if_unprocessed : NotificationRecord → State → Bool × State
  pub list : ℕ → ℕ → State → List NotificationRecord

-- `InMemoryNotificationStore`
pub record NotificationStore : Type 0 where
  pub records : List NotificationRecord
  pub processed : List ℕ

unfoldable pub append_if_unprocessed :
    NotificationRecord → NotificationStore → Bool × NotificationStore
append_if_unprocessed r s =
    if mem r.message_id s.processed
    then (false, s)
    else (true, record { records = s.records ++ (r ∷ []); processed = r.message_id ∷ s.processed })

-- `slice((page - 1) * pageSize, page * pageSize)`; `page` is at least 1 (`paginationQuerySchema`).
unfoldable pub list_stored : ℕ → ℕ → NotificationStore → List NotificationRecord
list_stored page page_size s =
    take (page * page_size - (page - 1) * page_size) (drop ((page - 1) * page_size) s.records)

abbrev pub in_memory : NotificationSink
in_memory = record {
  State = NotificationStore;
  append_if_unprocessed = append_if_unprocessed;
  list = list_stored;
}

module _ (sink : NotificationSink) where
  -- `handleBookingConfirmed`; the first argument is the time, and the answer is whether it stored.
  unfoldable pub handle_booking_confirmed :
      ℕ → MessageEnvelope BookingEventQuantity → sink.State → Bool × sink.State
  handle_booking_confirmed now m s =
      sink.append_if_unprocessed
        (record {
          timestamp = now;
          message = "Booking confirmed";
          type = NotificationType.booking_confirmed;
          message_id = m.message_id;
          correlation_id = m.correlation_id;
          booking_id = m.payload.booking_id;
          event_id = m.payload.event_id;
          reason = none;
        })
        s

  -- `handleBookingFailed`
  unfoldable pub handle_booking_failed :
      ℕ → MessageEnvelope BookingEventFailure → sink.State → Bool × sink.State
  handle_booking_failed now m s =
      sink.append_if_unprocessed
        (record {
          timestamp = now;
          message = "Booking failed";
          type = NotificationType.booking_failed;
          message_id = m.message_id;
          correlation_id = m.correlation_id;
          booking_id = m.payload.booking_id;
          event_id = m.payload.event_id;
          reason = some m.payload.reason;
        })
        s

  -- `handleBookingCancelled`
  unfoldable pub handle_booking_cancelled :
      ℕ → MessageEnvelope BookingEventQuantity → sink.State → Bool × sink.State
  handle_booking_cancelled now m s =
      sink.append_if_unprocessed
        (record {
          timestamp = now;
          message = "Booking cancelled";
          type = NotificationType.booking_cancelled;
          message_id = m.message_id;
          correlation_id = m.correlation_id;
          booking_id = m.payload.booking_id;
          event_id = m.payload.event_id;
          reason = none;
        })
        s

  -- A message of one of the three topics that the service subscribes to.
  pub data Delivery : Type 0 where
    confirmed : MessageEnvelope BookingEventQuantity → Delivery
    failed : MessageEnvelope BookingEventFailure → Delivery
    cancelled : MessageEnvelope BookingEventQuantity → Delivery

  -- The subscriptions of src/infrastructure/messaging/messaging.bootstrap.ts.
  unfoldable pub deliver : ℕ → Delivery → sink.State → Bool × sink.State
  deliver now (Delivery.confirmed m) s = handle_booking_confirmed now m s
  deliver now (Delivery.failed m) s = handle_booking_failed now m s
  deliver now (Delivery.cancelled m) s = handle_booking_cancelled now m s

  abbrev pub delivered_id : Delivery → ℕ
  delivered_id (Delivery.confirmed m) = m.message_id
  delivered_id (Delivery.failed m) = m.message_id
  delivered_id (Delivery.cancelled m) = m.message_id

  -- Messages that arrive one after the other, each at its time.
  unfoldable pub deliver_all : List (ℕ × Delivery) → sink.State → sink.State
  deliver_all [] s = s
  deliver_all (x ∷ ds) s = deliver_all ds (deliver x.0 x.1 s).1
