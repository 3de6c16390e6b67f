-- ===== src/Contracts/Soundness.antt =====
-- What a consumer knows of a message that `parseMessageEnvelope` has let through.
use mathlib.Core.Option
use mathlib.Core.Path.{subst}
use event_booking_system_mic.Contracts.Json.{object}
use event_booking_system_mic.Contracts.RoundTrip.{quantity_of}
use event_booking_system_mic.Contracts.{Payload, Topic, topic_of, ReserveSeatsPayload, Message}
use event_booking_system_mic.Common.{◌≡◌, ◌<◌, ◌>>=◌, Option, some, ℕ, arith, none, refl, suc, zero}
use event_booking_system_mic.Contracts.Json.{number, Formats, Json, Properties, Number, property_of}
use event_booking_system_mic.Contracts.Schemas.{
  uuid, positive_int, literal_one, booking_event_quantity_schema, uuid_key, message_envelope_schema,
  parse_message_envelope, reserve_seats_schema, topic_payload_schema, failure_schema, optional_uuid,
  datetime, read_payload, text_key,
}
use event_booking_system_mic.Contracts.{BookingEventQuantity}

-- Inversion of a step that gave a result.
bind_result :
    {A B : Type 0} (o : Option A) (k : A → Option B) {b : B}
    → (o >>= k) ≡ some b
    → (a : A) × (o ≡ some a) × (k a ≡ some b)
bind_result none k h = absurd (ground arith)
bind_result (some a) k h = (a, refl, h)

msome_injective :
    {A B : Type 0} (g : A → B) (o : Option A) {b : B}
    → Option.map g o ≡ some b
    → (a : A) × (o ≡ some a) × (g a ≡ b)
msome_injective g none h = absurd (ground arith)
msome_injective g (some a) h = (a, refl, ground (arith, h))

some_injective : {A : Type 0} (P : A → Type 0) {a b : A} → some a ≡ some b → P a → P b
some_injective P h x = subst P (ground (arith, h)) x

-- What holds of everything that is wrapped holds of the result.
carried :
    {A : Type 0} (g : A → Payload) (o : Option A) {topic : Topic} {p : Payload}
    → Option.map g o ≡ some p
    → ((a : A) → o ≡ some a → (topic_of (g a) ≡ topic) × (0 < quantity_of (g a)))
    → (topic_of p ≡ topic) × (0 < quantity_of p)
carried g o {topic} h k =
    let (a, e, q) = msome_injective g o h in
    subst (λ p. (topic_of p ≡ topic) × (0 < quantity_of p)) q (k a e)

positive_int-positive : (v : Option Json) {n : ℕ} → positive_int v ≡ some n → 0 < n
unfolding positive_int
positive_int-positive (some (number (Number.nat zero))) h = absurd (ground arith)
positive_int-positive (some (number (Number.nat (suc n)))) h = ground arith
positive_int-positive _ h = absurd (ground arith)

literal_one-one : (v : Option Json) {n : ℕ} → literal_one v ≡ some n → n ≡ 1
unfolding literal_one
literal_one-one (some (number (Number.nat n))) h = ground arith
literal_one-one _ h = absurd (ground arith)

module _ (f : Formats) where
  quantity_positive :
      (ps : Properties) {p : BookingEventQuantity}
      → booking_event_quantity_schema f ps ≡ some p
      → 0 < p.quantity
  unfolding booking_event_quantity_schema
  quantity_positive ps {p} h =
      let (_, _, h₁) = bind_result (uuid_key f (property_of "bookingId" ps)) _ h in
      let (_, _, h₂) = bind_result (uuid f (property_of "eventId" ps)) _ h₁ in
      let (n, e, h₃) = bind_result (positive_int (property_of "quantity" ps)) _ h₂ in
      let pos = positive_int-positive (property_of "quantity" ps) e in ground (arith, pos, h₃)

  reserve_seats_positive :
      (ps : Properties) {p : ReserveSeatsPayload}
      → reserve_seats_schema f ps ≡ some p
      → 0 < p.quantity
  unfolding reserve_seats_schema
  reserve_seats_positive ps {p} h =
      let (_, _, h₁) = bind_result (uuid_key f (property_of "bookingId" ps)) _ h in
      let (_, _, h₂) = bind_result (uuid f (property_of "eventId" ps)) _ h₁ in
      let (_, _, h₃) = bind_result (uuid f (property_of "userId" ps)) _ h₂ in
      let (n, e, h₄) = bind_result (positive_int (property_of "quantity" ps)) _ h₃ in
      let pos = positive_int-positive (property_of "quantity" ps) e in ground (arith, pos, h₄)

  topic_payload_schema_fits :
      (topic : Topic) (ps : Properties) {p : Payload}
      → topic_payload_schema f topic ps ≡ some p
      → (topic_of p ≡ topic) × (0 < quantity_of p)
  unfolding topic_payload_schema
  topic_payload_schema_fits Topic.reserve_seats ps h =
      carried Payload.reserve_seats (reserve_seats_schema f ps) h
        (λ q e. (refl, reserve_seats_positive ps e))
  topic_payload_schema_fits Topic.seats_reserved ps h =
      carried Payload.seats_reserved (booking_event_quantity_schema f ps) h
        (λ q e. (refl, quantity_positive ps e))
  topic_payload_schema_fits Topic.seat_reservation_failed ps h =
      carried Payload.seat_reservation_failed (failure_schema f ps) h (λ q e. (refl, omega arith))
  topic_payload_schema_fits Topic.booking_confirmed ps h =
      carried Payload.booking_confirmed (booking_event_quantity_schema f ps) h
        (λ q e. (refl, quantity_positive ps e))
  topic_payload_schema_fits Topic.booking_failed ps h =
      carried Payload.booking_failed (failure_schema f ps) h (λ q e. (refl, omega arith))
  topic_payload_schema_fits Topic.booking_cancelled ps h =
      carried Payload.booking_cancelled (booking_event_quantity_schema f ps) h
        (λ q e. (refl, quantity_positive ps e))

  payload_fits :
      (topic : Topic) (v : Option Json) {p : Payload}
      → read_payload f topic v ≡ some p
      → (topic_of p ≡ topic) × (0 < quantity_of p)
  payload_fits topic (some (object ps)) h = topic_payload_schema_fits topic ps h
  payload_fits topic _ h = absurd (ground arith)

  envelope_fits :
      (topic : Topic) (ps : Properties) {m : Message}
      → message_envelope_schema f topic ps ≡ some m
      → (topic_of m.payload ≡ topic) × (m.version ≡ 1) × (0 < quantity_of m.payload)
  unfolding message_envelope_schema
  envelope_fits topic ps {m} h =
      let (_, _, h₁) = bind_result (optional_uuid f (property_of "eventId" ps)) _ h in
      let (_, _, h₂) = bind_result (text_key f (property_of "messageId" ps)) _ h₁ in
      let (_, _, h₃) = bind_result (text_key f (property_of "correlationId" ps)) _ h₂ in
      let (_, _, h₄) = bind_result (datetime f (property_of "timestamp" ps)) _ h₃ in
      let (v, one, h₅) = bind_result (literal_one (property_of "version" ps)) _ h₄ in
      let (p, fits, h₆) = bind_result (read_payload f topic (property_of "payload" ps)) _ h₅ in
      let (t, q) = payload_fits topic (property_of "payload" ps) fits in
      some_injective
        (λ m. (topic_of m.payload ≡ topic) × (m.version ≡ 1) × (0 < quantity_of m.payload)) h₆
        (t, literal_one-one (property_of "version" ps) one, q)

  -- A message that is let through for a topic carries a payload of that topic, is of version 1, and
  -- its quantity, if its payload has one, is positive.
  pub parse_message_envelope_fits :
      (topic : Topic) (j : Json) {m : Message}
      → parse_message_envelope f topic j ≡ some m
      → (topic_of m.payload ≡ topic) × (m.version ≡ 1) × (0 < quantity_of m.payload)
  unfolding parse_message_envelope
  parse_message_envelope_fits topic (object ps) h = envelope_fits topic ps h
  parse_message_envelope_fits topic _ h = absurd (ground arith)
