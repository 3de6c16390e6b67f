-- ===== src/Contracts.antt =====
-- packages/contracts/src/index.ts: the topics of the bus and the messages on them. An id that the
-- services make themselves (`randomUUID`) or that the database returns is in lower case and is the
-- number that the UUID stands for. An id that a client sends is a text, of which the schemas let
-- upper case pass: a number and a spelling of it. An instant is a number of milliseconds; a `Date`
-- and its ISO text are one instant.
pub mod Json
pub mod Schemas
pub mod RoundTrip
pub mod Soundness
pub mod Unary
mod Tests
use event_booking_system_mic.Common.{ℕ, Option, Bool, ◌&&◌, ◌==◌}

-- The text of a UUID as it was sent; spelling 0 is the lower-case one.
pub record UuidText : Type 0 where
  pub value : ℕ
  pub spelling : ℕ

-- The text that the database gives for a UUID column.
abbrev pub canonical : ℕ → UuidText
canonical v = record { value = v; spelling = 0 }

-- JavaScript's `===` on two texts.
abbrev pub text_eq : UuidText → UuidText → Bool
text_eq a b = a.value == b.value && a.spelling == b.spelling

pub data Topic : Type 0 where
  reserve_seats : Topic
  seats_reserved : Topic
  seat_reservation_failed : Topic
  booking_confirmed : Topic
  booking_failed : Topic
  booking_cancelled : Topic

pub data BookingStatus : Type 0 where
  pending confirmed failed cancelled expired : BookingStatus

-- The `reason` of a failed reservation.
pub data FailureReason : Type 0 where
  insufficient_seats event_not_found : FailureReason

pub record ReserveSeatsPayload : Type 0 where
  pub booking_id : ℕ
  pub event_id : UuidText
  pub user_id : UuidText
  pub quantity : ℕ

-- The payload of seats-reserved, booking-confirmed and booking-cancelled messages.
pub record BookingEventQuantity : Type 0 where
  pub booking_id : ℕ
  pub event_id : UuidText
  pub quantity : ℕ

-- The payload of seat-reservation-failed and booking-failed messages.
pub record BookingEventFailure : Type 0 where
  pub booking_id : ℕ
  pub event_id : UuidText
  pub reason : FailureReason

-- `MessageEnvelope<TPayload>`
pub record MessageEnvelope (P : Type 0) : Type 0 where
  pub event_id : Option UuidText
  pub message_id : ℕ
  pub correlation_id : ℕ
  pub timestamp : ℕ
  pub version : ℕ
  pub payload : P

-- A payload of any topic, as an outbox row stores it.
pub data Payload : Type 0 where
  reserve_seats : ReserveSeatsPayload → Payload
  seats_reserved : BookingEventQuantity → Payload
  seat_reservation_failed : BookingEventFailure → Payload
  booking_confirmed : BookingEventQuantity → Payload
  booking_failed : BookingEventFailure → Payload
  booking_cancelled : BookingEventQuantity → Payload

abbrev pub Message : Type 0
Message = MessageEnvelope Payload

-- A message with its payload taken out.
abbrev pub with_payload : {P : Type 0} → Message → P → MessageEnvelope P
with_payload m p = record {
  event_id = m.event_id;
  message_id = m.message_id;
  correlation_id = m.correlation_id;
  timestamp = m.timestamp;
  version = m.version;
  payload = p;
}

-- The topic that carries a payload (`TopicPayloadMap`, read backwards).
abbrev pub topic_of : Payload → Topic
topic_of (Payload.reserve_seats _) = Topic.reserve_seats
topic_of (Payload.seats_reserved _) = Topic.seats_reserved
topic_of (Payload.seat_reservation_failed _) = Topic.seat_reservation_failed
topic_of (Payload.booking_confirmed _) = Topic.booking_confirmed
topic_of (Payload.booking_failed _) = Topic.booking_failed
topic_of (Payload.booking_cancelled _) = Topic.booking_cancelled
