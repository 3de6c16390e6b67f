-- ===== src/Contracts/Tests.antt =====
-- Envelopes at concrete inputs.
use text.Mathlib.Text.{◌==◌ as str_eq}
use event_booking_system_mic.Common.{◌≡◌, if◌then◌else◌, none, some, ◌<◌, refl, arith}
use event_booking_system_mic.Contracts.Json.{
  property, end, object, string, number, Json, Formats, Number, property_of,
}
use event_booking_system_mic.Contracts.{Message, topic_of, Topic, Payload, canonical}
use event_booking_system_mic.Contracts.Schemas.{
  uuid, parse_message_envelope, message_envelope_schema, optional_uuid, uuid_key, datetime,
  literal_one, topic_payload_schema, booking_event_quantity_schema, positive_int, text_key,
}
use event_booking_system_mic.Contracts.RoundTrip.{
  quantity_of, to_json, parse_message_envelope-to_json,
}
use event_booking_system_mic.Contracts.Soundness.{parse_message_envelope_fits}
use event_booking_system_mic.Contracts.Unary.{unary_formats, unary_formats-ReadsBack}

-- Formats in which every id is "u" and is 0, and every instant "t" and is 5.
abbrev narrow_formats : Formats
narrow_formats = record {
  read_uuid = λ s. if str_eq s "u" then some (canonical 0) else none;
  write_uuid = λ u. "u";
  read_instant = λ s. if str_eq s "t" then some 5 else none;
  write_instant = λ t. "t";
  text_number = λ u. u.value;
  numbered_text = canonical;
}

abbrev message_json : Json
message_json = object (
    property "messageId" (string "u") (
      property "correlationId" (string "u") (
        property "timestamp" (string "t") (
          property "version" (number (Number.nat 1)) (
            property "payload"
              (object (
                property "bookingId" (string "u") (
                  property "eventId" (string "u")
                    (property "quantity" (number (Number.nat 2)) end))))
              end)))))

abbrev message : Message
message = record {
  event_id = none;
  message_id = 0;
  correlation_id = 0;
  timestamp = 5;
  version = 1;
  payload =
      Payload.seats_reserved (record { booking_id = 0; event_id = canonical 0; quantity = 2 });
}

message_json_lem :
    parse_message_envelope narrow_formats Topic.seats_reserved message_json ≡ some message
unfolding parse_message_envelope message_envelope_schema optional_uuid uuid_key text_key uuid
    datetime literal_one topic_payload_schema booking_event_quantity_schema positive_int property_of
message_json_lem = refl

parse_message_envelope_fits_example :
    (topic_of message.payload ≡ Topic.seats_reserved)
    × (message.version ≡ 1)
    × (0 < quantity_of message.payload)
parse_message_envelope_fits_example =
    parse_message_envelope_fits narrow_formats Topic.seats_reserved message_json message_json_lem

parse_message_envelope-to_json_example :
    parse_message_envelope unary_formats Topic.seats_reserved (to_json unary_formats message)
    ≡ some message
parse_message_envelope-to_json_example =
    parse_message_envelope-to_json unary_formats unary_formats-ReadsBack message refl (omega arith)
