-- ===== src/Notification/Tests.antt =====
-- Notifications at concrete inputs.
use event_booking_system_mic.Notification.{
  NotificationRecord, NotificationStore, Delivery, NotificationType, deliver_all, in_memory,
  append_if_unprocessed,
}
use event_booking_system_mic.Common.{◌∷◌, ℕ, List, [], ◌≡◌, refl, none}
use event_booking_system_mic.Notification.Refinement.{
  store_if_unprocessed, Matches, NotificationDb, store_if_unprocessed-Matches,
}
use event_booking_system_mic.Notification.Once.{count, deliver_all_once}
use event_booking_system_mic.Sql.ListTables.{list_tables}
use event_booking_system_mic.Contracts.{
  MessageEnvelope, BookingEventFailure, BookingEventQuantity, canonical, FailureReason,
}

abbrev confirmed_message : ℕ → MessageEnvelope BookingEventQuantity
confirmed_message id = record {
  event_id = none;
  message_id = id;
  correlation_id = 1;
  timestamp = 5;
  version = 1;
  payload = record { booking_id = 1; event_id = canonical 9; quantity = 2 };
}

abbrev failed_message : ℕ → MessageEnvelope BookingEventFailure
failed_message id = record {
  event_id = none;
  message_id = id;
  correlation_id = 1;
  timestamp = 6;
  version = 1;
  payload = record {
    booking_id = 2;
    event_id = canonical 9;
    reason = FailureReason.insufficient_seats;
  };
}

-- Message 30 comes twice, with message 31 in between.
abbrev deliveries : List (ℕ × Delivery in_memory)
deliveries =
    (7, Delivery.confirmed (confirmed_message 30))
    ∷ (8, Delivery.failed (failed_message 31))
    ∷ (9, Delivery.confirmed (confirmed_message 30))
    ∷ []

abbrev empty_store : NotificationStore
empty_store = record { records = []; processed = [] }

deliver_all_once_example : count 30 (deliver_all in_memory deliveries empty_store).records ≡ 1
deliver_all_once_example = deliver_all_once deliveries empty_store 30 (λ m. refl)

abbrev notification : NotificationRecord
notification = record {
  timestamp = 7;
  message = "Booking confirmed";
  type = NotificationType.booking_confirmed;
  message_id = 30;
  correlation_id = 1;
  booking_id = 1;
  event_id = canonical 9;
  reason = none;
}

abbrev empty_db : NotificationDb list_tables
empty_db = record { notifications = []; processed = [] }

empty_db-Matches : Matches list_tables empty_store empty_db
empty_db-Matches = record { marked = λ m. refl; stored = λ m. refl; kept = λ m. refl }

store_if_unprocessed-Matches_example :
    ((store_if_unprocessed list_tables 8 50 notification empty_db).0
      ≡ (append_if_unprocessed notification empty_store).0)
    × Matches list_tables
        (append_if_unprocessed notification empty_store).1
        (store_if_unprocessed list_tables 8 50 notification empty_db).1
store_if_unprocessed-Matches_example =
    store_if_unprocessed-Matches list_tables 8 50 notification empty_store empty_db empty_db-Matches
      refl
