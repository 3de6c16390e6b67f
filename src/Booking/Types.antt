-- ===== src/Booking/Types.antt =====
-- The tables of the booking service (services/booking-service/prisma/schema.prisma) and the types of
-- services/booking-service/src/modules/bookings/booking.types.ts.
use event_booking_system_mic.Common.{ℕ, Option, none, some, List}
use event_booking_system_mic.Contracts.{UuidText, BookingStatus, FailureReason}
use event_booking_system_mic.Outbox.{OutboxRecord, OutboxInput}
use event_booking_system_mic.Sql.{Sql, Schema}

-- An idempotency key is the number that its text stands for; 0 is the empty text, which the
-- source's tests of a key take for no key.
pub record BookingRecord : Type 0 where
  pub id : ℕ
  pub user_id : ℕ
  pub event_id : ℕ
  pub quantity : ℕ
  pub status : BookingStatus
  pub idempotency_key : Option ℕ
  pub created_at : ℕ
  pub updated_at : ℕ

pub record BookingDto : Type 0 where
  pub id : ℕ
  pub user_id : ℕ
  pub event_id : ℕ
  pub quantity : ℕ
  pub status : BookingStatus
  pub idempotency_key : Option ℕ
  pub created_at : ℕ
  pub updated_at : ℕ

-- A text as its code units.
abbrev pub Text : Type 0
Text = List ℕ

-- A row of `booking_idempotency_keys`.
pub record IdempotencyRow : Type 0 where
  pub key : ℕ
  pub booking_id : ℕ
  pub request_fingerprint : Text
  pub response : BookingDto
  pub created_at : ℕ

pub record ProcessedMessage : Type 0 where
  pub message_id : ℕ
  pub processed_at : ℕ

abbrev pub booking_schema : Schema BookingRecord
booking_schema = record { key = λ r. r.id; unique = λ r. r.idempotency_key }

abbrev pub idempotency_schema : Schema IdempotencyRow
idempotency_schema = record { key = λ r. r.key; unique = λ r. some r.booking_id }

abbrev pub processed_schema : Schema ProcessedMessage
processed_schema = record { key = λ r. r.message_id; unique = λ r. none }

-- The database of the service.
pub record BookingDb (sql : Sql) : Type 0 where
  pub bookings : sql.Rows BookingRecord
  pub idempotency_keys : sql.Rows IdempotencyRow
  pub processed_messages : sql.Rows ProcessedMessage
  pub outbox : sql.Rows OutboxRecord

pub data BookingProcessingFailureReason : Type 0 where
  booking_not_found : BookingProcessingFailureReason
  event_mismatch : BookingProcessingFailureReason
  quantity_mismatch : BookingProcessingFailureReason
  invalid_status : BookingProcessingFailureReason

pub data ProcessSeatsReservedResult : Type 0 where
  duplicate : ProcessSeatsReservedResult
  confirmed : BookingDto → ℕ → ProcessSeatsReservedResult
  rejected : BookingProcessingFailureReason → ProcessSeatsReservedResult

pub data ProcessSeatReservationFailedResult : Type 0 where
  duplicate : ProcessSeatReservationFailedResult
  failed : BookingDto → ℕ → ProcessSeatReservationFailedResult
  rejected : BookingProcessingFailureReason → ProcessSeatReservationFailedResult

-- Only `booking_not_found` and `invalid_status` are given as reasons.
pub data CancelBookingResult : Type 0 where
  cancelled : BookingDto → ℕ → CancelBookingResult
  rejected : BookingProcessingFailureReason → CancelBookingResult

pub record CreateBookingInput : Type 0 where
  pub id : ℕ
  pub user_id : ℕ
  pub event_id : ℕ
  pub quantity : ℕ
  pub status : BookingStatus
  pub idempotency_key : Option ℕ
  pub request_fingerprint : Text

pub record SeatsReservedInput : Type 0 where
  pub message_id : ℕ
  pub booking_id : ℕ
  pub event_id : UuidText
  pub quantity : ℕ
  pub outbox_on_success : OutboxInput

pub record SeatReservationFailedInput : Type 0 where
  pub message_id : ℕ
  pub booking_id : ℕ
  pub event_id : UuidText
  pub reason : FailureReason
  pub outbox_on_failure : OutboxInput

pub record CancelBookingInput : Type 0 where
  pub id : ℕ
  pub outbox : OutboxInput
