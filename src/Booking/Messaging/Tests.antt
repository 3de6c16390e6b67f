-- ===== src/Booking/Messaging/Tests.antt =====
-- A seats-reserved message on its way to the booking service.
use event_booking_system_mic.Common.{◌≡◌, none, ℕ, ok, some, ◌+◌, arith, refl}
use event_booking_system_mic.Booking.Repository.Settle.{
  mark_processed, process_seats_reserved_message, confirm_booking, move_booking,
}
use event_booking_system_mic.Booking.Service.Tests.{counting_bus, empty_db, world, ids}
use event_booking_system_mic.Messaging.Kafka.{
  Broker, find_subscription, Codec, each_message, record_of, create_kafka_subscription,
}
use event_booking_system_mic.Contracts.{Message, Payload, canonical, Topic}
use event_booking_system_mic.Contracts.Unary.{unary_formats, unary_formats-ReadsBack}
use event_booking_system_mic.Booking.Messaging.{on_seats_reserved, booking_subscriptions}
use event_booking_system_mic.Booking.Consumers.{handle_seats_reserved, finish_reserved}
use event_booking_system_mic.Contracts.RoundTrip.{to_json}
use event_booking_system_mic.Sql.ListTables.{list_tables}
use event_booking_system_mic.Messaging.Delivery.{received, each_message-publish}

abbrev still : Broker
still = record {
  State = ℕ;
  connect = λ s. (ok tt, s);
  disconnect = λ s. (ok tt, s);
  send = λ r s. (ok tt, s + 1);
}

abbrev reserved : Message
reserved = record {
  event_id = none;
  message_id = 4;
  correlation_id = 100;
  timestamp = 60;
  version = 1;
  payload =
      Payload.seats_reserved (record { booking_id = 100; event_id = canonical 9; quantity = 2 });
}

-- A codec that knows one message.
abbrev one_message : Codec
one_message = record {
  formats = unary_formats;
  stringify = λ j. "{…}";
  stringify_record = λ d. "";
  json_parse = λ s. some (to_json unary_formats reserved);
}

-- The booking is not there, so the handler leaves the service as it was but for the mark.
each_message-publish_example :
    each_message
      (booking_subscriptions list_tables counting_bus unary_formats 70 (ids 200))
      70
      Topic.seats_reserved
      (received still one_message
        (record_of still one_message Topic.seats_reserved reserved)
        0
        12
        "booking-service"
        (λ d w. (ok tt, w))
        (λ e. ""))
      (world empty_db)
    ≡ on_seats_reserved list_tables counting_bus unary_formats 70
        (ids 200)
        reserved
        (world empty_db)
unfolding find_subscription on_seats_reserved handle_seats_reserved process_seats_reserved_message
    finish_reserved mark_processed confirm_booking move_booking create_kafka_subscription
each_message-publish_example =
    each_message-publish still one_message unary_formats-ReadsBack reserved refl refl (omega arith)
      (on_seats_reserved list_tables counting_bus unary_formats 70 (ids 200)) (world empty_db)
      (λ e h. absurd (ground arith))
      (booking_subscriptions list_tables counting_bus unary_formats 70 (ids 200)) refl 70 0 12
      "booking-service" (λ d w. (ok tt, w)) (λ e. "")
