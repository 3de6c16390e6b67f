-- ===== src/Contracts/Schemas.antt =====
-- The schemas of packages/contracts/src/index.ts and `parseMessageEnvelope`. `none` is the `ZodError`
-- that `parse` throws; keys that a schema does not name are dropped, as `z.object` does.
use mathlib.Core.Option
use text.Mathlib.Text.{◌==◌ as str_eq}
use event_booking_system_mic.Common.{
  ◌>>=◌, ◌==◌, Option, ℕ, some, none, if◌then◌else◌, suc, zero, ◌==◌,
}
use event_booking_system_mic.Contracts.Json.{
  string, number, object, Formats, Properties, Json, Number, property_of,
}
use event_booking_system_mic.Contracts.{
  Topic, BookingEventFailure, ReserveSeatsPayload, FailureReason, UuidText, BookingEventQuantity,
  Payload, Message,
}

module _ (f : Formats) where
  -- `uuid`
  unfoldable pub uuid : Option Json → Option UuidText
  uuid (some (string s)) = f.read_uuid s
  uuid _ = none

  -- An id of a booking, which is compared as a uuid of the database.
  unfoldable pub uuid_key : Option Json → Option ℕ
  unfolding uuid
  uuid_key v = Option.map (λ u. u.value) (uuid v)

  -- An id that is compared as a text, so that two spellings are two ids.
  unfoldable pub text_key : Option Json → Option ℕ
  unfolding uuid
  text_key v = Option.map f.text_number (uuid v)

  -- `uuid.optional()`
  unfoldable pub optional_uuid : Option Json → Option (Option UuidText)
  unfolding uuid
  optional_uuid none = some none
  optional_uuid v = Option.map some (uuid v)

  -- `z.iso.datetime({ offset: true })`
  unfoldable pub datetime : Option Json → Option ℕ
  datetime (some (string s)) = f.read_instant s
  datetime _ = none

-- `quantity`, that is `z.number().int().positive()`
unfoldable pub positive_int : Option Json → Option ℕ
positive_int (some (number (Number.nat zero))) = none
positive_int (some (number (Number.nat (suc n)))) = some (suc n)
positive_int _ = none

-- `z.enum(["INSUFFICIENT_SEATS", "EVENT_NOT_FOUND"])`
unfoldable pub failure_reason : Option Json → Option FailureReason
failure_reason (some (string s)) =
    if str_eq s "INSUFFICIENT_SEATS"
    then some FailureReason.insufficient_seats
    else if str_eq s "EVENT_NOT_FOUND"
    then some FailureReason.event_not_found
    else none
failure_reason _ = none

-- `z.literal(1)`
unfoldable pub literal_one : Option Json → Option ℕ
literal_one (some (number (Number.nat n))) = if n == 1 then some 1 else none
literal_one _ = none

module _ (f : Formats) where
  -- The schema of reserve-seats payloads.
  unfoldable pub reserve_seats_schema : Properties → Option ReserveSeatsPayload
  reserve_seats_schema ps = do
    booking_id ← uuid_key f (property_of "bookingId" ps)
    event_id ← uuid f (property_of "eventId" ps)
    user_id ← uuid f (property_of "userId" ps)
    quantity ← positive_int (property_of "quantity" ps)
    some (record {
      booking_id = booking_id;
      event_id = event_id;
      user_id = user_id;
      quantity = quantity;
    })

  -- `bookingEventQuantitySchema`
  unfoldable pub booking_event_quantity_schema : Properties → Option BookingEventQuantity
  booking_event_quantity_schema ps = do
    booking_id ← uuid_key f (property_of "bookingId" ps)
    event_id ← uuid f (property_of "eventId" ps)
    quantity ← positive_int (property_of "quantity" ps)
    some (record { booking_id = booking_id; event_id = event_id; quantity = quantity })

  -- `failureSchema`
  unfoldable pub failure_schema : Properties → Option BookingEventFailure
  failure_schema ps = do
    booking_id ← uuid_key f (property_of "bookingId" ps)
    event_id ← uuid f (property_of "eventId" ps)
    reason ← failure_reason (property_of "reason" ps)
    some (record { booking_id = booking_id; event_id = event_id; reason = reason })

  -- `topicPayloadSchemas`
  unfoldable pub topic_payload_schema : Topic → Properties → Option Payload
  topic_payload_schema Topic.reserve_seats ps =
      Option.map Payload.reserve_seats (reserve_seats_schema ps)
  topic_payload_schema Topic.seats_reserved ps =
      Option.map Payload.seats_reserved (booking_event_quantity_schema ps)
  topic_payload_schema Topic.seat_reservation_failed ps =
      Option.map Payload.seat_reservation_failed (failure_schema ps)
  topic_payload_schema Topic.booking_confirmed ps =
      Option.map Payload.booking_confirmed (booking_event_quantity_schema ps)
  topic_payload_schema Topic.booking_failed ps =
      Option.map Payload.booking_failed (failure_schema ps)
  topic_payload_schema Topic.booking_cancelled ps =
      Option.map Payload.booking_cancelled (booking_event_quantity_schema ps)

  -- `payloadSchema` on the value of a key
  abbrev pub read_payload : Topic → Option Json → Option Payload
  read_payload topic (some (object ps)) = topic_payload_schema topic ps
  read_payload topic _ = none

  -- `messageEnvelopeSchema`
  unfoldable pub message_envelope_schema : Topic → Properties → Option Message
  message_envelope_schema topic ps = do
    event_id ← optional_uuid f (property_of "eventId" ps)
    message_id ← text_key f (property_of "messageId" ps)
    correlation_id ← text_key f (property_of "correlationId" ps)
    timestamp ← datetime f (property_of "timestamp" ps)
    version ← literal_one (property_of "version" ps)
    body ← read_payload topic (property_of "payload" ps)
    some (record {
      event_id = event_id;
      message_id = message_id;
      correlation_id = correlation_id;
      timestamp = timestamp;
      version = version;
      payload = body;
    })

  -- `parseMessageEnvelope`
  unfoldable pub parse_message_envelope : Topic → Json → Option Message
  parse_message_envelope topic (object ps) = message_envelope_schema topic ps
  parse_message_envelope topic _ = none
