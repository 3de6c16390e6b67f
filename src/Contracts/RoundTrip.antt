-- ===== src/Contracts/RoundTrip.antt =====
-- `JSON.stringify` of an envelope, which the publishers send, and what `parseMessageEnvelope` makes of
-- it.
use Prim.Native.String.{String}
use event_booking_system_mic.Contracts.Json.{
  string, object, property, number, end, property_of, Number,
}
use event_booking_system_mic.Contracts.Schemas.{
  read_payload, uuid, failure_reason, datetime, literal_one, topic_payload_schema, failure_schema,
  reserve_seats_schema, parse_message_envelope, message_envelope_schema, optional_uuid, text_key,
}
use event_booking_system_mic.Common.{◌<◌, arith, refl, suc, zero, Option}
use event_booking_system_mic.Contracts.{
  Payload, FailureReason, UuidText, BookingEventFailure, BookingEventQuantity, Message, canonical,
  ReserveSeatsPayload, topic_of,
}
use event_booking_system_mic.Contracts.Json.{Formats, Json, ReadsBack, Properties, property_of}
use event_booking_system_mic.Common.{ℕ, none, ◌<◌, some, ◌≡◌}
use event_booking_system_mic.Contracts.Schemas.{
  uuid_key, positive_int, booking_event_quantity_schema,
}

abbrev pub reason_text : FailureReason → String
reason_text FailureReason.insufficient_seats = "INSUFFICIENT_SEATS"
reason_text FailureReason.event_not_found = "EVENT_NOT_FOUND"

-- The topic that carries a payload, and whether the quantity in it is one that can be asked for.
abbrev pub quantity_of : Payload → ℕ
quantity_of (Payload.reserve_seats p) = p.quantity
quantity_of (Payload.seats_reserved p) = p.quantity
quantity_of (Payload.seat_reservation_failed p) = 1
quantity_of (Payload.booking_confirmed p) = p.quantity
quantity_of (Payload.booking_failed p) = 1
quantity_of (Payload.booking_cancelled p) = p.quantity

module _ (f : Formats) where
  abbrev text : UuidText → Json
  text u = string (f.write_uuid u)

  abbrev reserve_seats_properties : ReserveSeatsPayload → Properties
  reserve_seats_properties p = property "bookingId" (text (canonical p.booking_id)) (
      property "eventId" (text p.event_id) (
        property "userId" (text p.user_id)
          (property "quantity" (number (Number.nat p.quantity)) end)))

  abbrev quantity_properties : BookingEventQuantity → Properties
  quantity_properties p = property "bookingId" (text (canonical p.booking_id)) (
      property "eventId" (text p.event_id)
        (property "quantity" (number (Number.nat p.quantity)) end))

  abbrev failure_properties : BookingEventFailure → Properties
  failure_properties p =
      property "bookingId" (text (canonical p.booking_id)) (
        property "eventId" (text p.event_id)
          (property "reason" (string (reason_text p.reason)) end))

  abbrev pub payload_json : Payload → Json
  payload_json (Payload.reserve_seats p) = object (reserve_seats_properties p)
  payload_json (Payload.seats_reserved p) = object (quantity_properties p)
  payload_json (Payload.seat_reservation_failed p) = object (failure_properties p)
  payload_json (Payload.booking_confirmed p) = object (quantity_properties p)
  payload_json (Payload.booking_failed p) = object (failure_properties p)
  payload_json (Payload.booking_cancelled p) = object (quantity_properties p)

  abbrev envelope_rest : Message → Properties
  envelope_rest m = property "messageId" (text (f.numbered_text m.message_id)) (
      property "correlationId" (text (f.numbered_text m.correlation_id)) (
        property "timestamp" (string (f.write_instant m.timestamp)) (
          property "version" (number (Number.nat m.version))
            (property "payload" (payload_json m.payload) end))))

  -- The envelope as JSON; an `eventId` that is undefined is left out.
  unfoldable pub to_json : Message → Json
  to_json m = elim m.event_id [
    | none ↦ object (envelope_rest m)
    | some u ↦ object (property "eventId" (text u) (envelope_rest m))
  ]

  module _ (back : ReadsBack f) where
    uuid_text : (u : UuidText) → uuid f (some (text u)) ≡ some u
    unfolding uuid
    uuid_text u = back.uuid u

    uuid_key-of_text : (n : ℕ) → uuid_key f (some (text (canonical n))) ≡ some n
    unfolding uuid_key uuid
    uuid_key-of_text n = rw (back.uuid (canonical n)) refl

    text_key-of_text : (n : ℕ) → text_key f (some (text (f.numbered_text n))) ≡ some n
    unfolding text_key uuid
    text_key-of_text n = rw (back.uuid (f.numbered_text n), back.number n) refl

    positive_int_nat : (n : ℕ) → 0 < n → positive_int (some (number (Number.nat n))) ≡ some n
    unfolding positive_int
    positive_int_nat zero h = absurd (omega arith)
    positive_int_nat (suc n) h = refl

    failure_reason_text :
        (r : FailureReason) → failure_reason (some (string (reason_text r))) ≡ some r
    unfolding failure_reason
    failure_reason_text FailureReason.insufficient_seats = refl
    failure_reason_text FailureReason.event_not_found = refl

    quantity_reads :
        (p : BookingEventQuantity)
        → 0 < p.quantity
        → booking_event_quantity_schema f (quantity_properties p) ≡ some p
    unfolding booking_event_quantity_schema property_of
    quantity_reads p h =
        rw (uuid_key-of_text p.booking_id, uuid_text p.event_id, positive_int_nat p.quantity h) refl

    failure_reads : (p : BookingEventFailure) → failure_schema f (failure_properties p) ≡ some p
    unfolding failure_schema property_of
    failure_reads p =
        rw (uuid_key-of_text p.booking_id, uuid_text p.event_id, failure_reason_text p.reason) refl

    reserve_seats_reads :
        (p : ReserveSeatsPayload)
        → 0 < p.quantity
        → reserve_seats_schema f (reserve_seats_properties p) ≡ some p
    unfolding reserve_seats_schema property_of
    reserve_seats_reads p h =
        rw
          (
            uuid_key-of_text p.booking_id,
            uuid_text p.event_id,
            uuid_text p.user_id,
            positive_int_nat p.quantity h,
          )
          refl

    payload_reads :
        (p : Payload)
        → 0 < quantity_of p
        → read_payload f (topic_of p) (some (payload_json p)) ≡ some p
    unfolding topic_payload_schema
    payload_reads (Payload.reserve_seats p) h = rw (reserve_seats_reads p h) refl
    payload_reads (Payload.seats_reserved p) h = rw (quantity_reads p h) refl
    payload_reads (Payload.seat_reservation_failed p) h = rw (failure_reads p) refl
    payload_reads (Payload.booking_confirmed p) h = rw (quantity_reads p h) refl
    payload_reads (Payload.booking_failed p) h = rw (failure_reads p) refl
    payload_reads (Payload.booking_cancelled p) h = rw (quantity_reads p h) refl

    datetime_text : (t : ℕ) → datetime f (some (string (f.write_instant t))) ≡ some t
    unfolding datetime
    datetime_text t = back.instant t

    literal_one_nat : (n : ℕ) → n ≡ 1 → literal_one (some (number (Number.nat n))) ≡ some n
    unfolding literal_one
    literal_one_nat n e = rw e refl

    rest_reads :
        (m : Message) (u : Option UuidText) (ps : Properties)
        → optional_uuid f (property_of "eventId" ps) ≡ some u
        → property_of "messageId" ps ≡ some (text (f.numbered_text m.message_id))
        → property_of "correlationId" ps ≡ some (text (f.numbered_text m.correlation_id))
        → property_of "timestamp" ps ≡ some (string (f.write_instant m.timestamp))
        → property_of "version" ps ≡ some (number (Number.nat m.version))
        → property_of "payload" ps ≡ some (payload_json m.payload)
        → m.version ≡ 1
        → 0 < quantity_of m.payload
        → message_envelope_schema f (topic_of m.payload) ps ≡ some (record m { event_id = u })
    unfolding message_envelope_schema
    rest_reads m u ps a b c d e g v q =
        rw
          (
            a,
            b,
            c,
            d,
            e,
            g,
            text_key-of_text m.message_id,
            text_key-of_text m.correlation_id,
            datetime_text m.timestamp,
            literal_one_nat m.version v,
            payload_reads m.payload q,
          )
          refl

    parse_with :
        (m : Message) (u : Option UuidText)
        → m.event_id ≡ u
        → m.version ≡ 1
        → 0 < quantity_of m.payload
        → parse_message_envelope f (topic_of m.payload) (to_json m)
          ≡ some (record m { event_id = u })
    unfolding parse_message_envelope to_json property_of optional_uuid
    parse_with m none e v q =
        rw e (rest_reads m none (envelope_rest m) refl refl refl refl refl refl v q)
    parse_with m (some u) e v q = rw e (
        rest_reads m (some u) (property "eventId" (text u) (envelope_rest m))
          (rw (uuid_text u) refl) refl refl refl refl refl v q)

    -- Where what is written can be read back, an envelope of version 1 whose quantity, if its payload
    -- has one, is positive is read by its topic's schema as it was sent, with or without an `eventId`.
    pub parse_message_envelope-to_json :
        (m : Message)
        → m.version ≡ 1
        → 0 < quantity_of m.payload
        → parse_message_envelope f (topic_of m.payload) (to_json m) ≡ some m
    parse_message_envelope-to_json m v q = parse_with m m.event_id refl v q
