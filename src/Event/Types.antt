-- ===== src/Event/Types.antt =====
-- The tables of the event service (services/event-service/prisma/schema.prisma) and the types of
-- services/event-service/src/modules/events/event.types.ts and
-- services/event-service/src/modules/inventory/inventory.types.ts.
use Prim.Native.String.{String}
pub use event_booking_system_mic.Contracts.Json.{Number}
use event_booking_system_mic.Sql.{Sql, Schema}
use event_booking_system_mic.Common.{ℕ, Option, none}
use event_booking_system_mic.Outbox.{OutboxRecord}
use event_booking_system_mic.Contracts.{Topic, UuidText, Message}

pub record EventRecord : Type 0 where
  pub id : ℕ
  pub title : String
  pub date : ℕ
  pub total_seats : ℕ
  pub available_seats : ℕ
  pub created_at : ℕ
  pub updated_at : ℕ

pub record EventDto : Type 0 where
  pub id : ℕ
  pub title : String
  pub date : ℕ
  pub total_seats : ℕ
  pub available_seats : ℕ
  pub created_at : ℕ
  pub updated_at : ℕ

abbrev pub event_schema : Schema EventRecord
event_schema = record { key = λ r. r.id; unique = λ r. none }

-- `mapRow` of event.repository.ts and of inventory.repository.ts
abbrev pub map_row : EventRecord → EventDto
map_row row = record {
  id = row.id;
  title = row.title;
  date = row.date;
  total_seats = row.total_seats;
  available_seats = row.available_seats;
  created_at = row.created_at;
  updated_at = row.updated_at;
}

pub record ProcessedMessage : Type 0 where
  pub message_id : ℕ
  pub processed_at : ℕ

abbrev pub processed_schema : Schema ProcessedMessage
processed_schema = record { key = λ r. r.message_id; unique = λ r. none }

-- The database of the service.
pub record EventDb (sql : Sql) : Type 0 where
  pub events : sql.Rows EventRecord
  pub processed_messages : sql.Rows ProcessedMessage
  pub outbox : sql.Rows OutboxRecord

-- `outboxOnSuccess` of a reservation.
pub record SuccessInput : Type 0 where
  pub id : ℕ
  pub topic : Topic
  pub message_id : ℕ
  pub message : Message

-- `outboxOnFailure` of a reservation.
pub record FailureInput : Type 0 where
  pub id : ℕ
  pub topic : Topic
  pub message_id : ℕ
  pub correlation_id : ℕ
  pub booking_id : ℕ

pub record ProcessReserveSeatsInput : Type 0 where
  pub message_id : ℕ
  pub event_id : UuidText
  pub quantity : Number
  pub outbox_on_success : Option SuccessInput
  pub outbox_on_failure : Option FailureInput

pub record ProcessReleaseSeatsInput : Type 0 where
  pub message_id : ℕ
  pub event_id : UuidText
  pub quantity : Number

pub data RefusalReason : Type 0 where
  invalid_quantity : RefusalReason
  event_not_found : RefusalReason
  insufficient_seats : RefusalReason
  capacity_exceeded : RefusalReason

-- The last field of each answer but the first is `outboxRowId`.
pub data ReserveSeatsResult : Type 0 where
  duplicate : ReserveSeatsResult
  reserved : EventDto → Option ℕ → ReserveSeatsResult
  refused : RefusalReason → Option ℕ → ReserveSeatsResult

pub data ReleaseSeatsResult : Type 0 where
  duplicate : ReleaseSeatsResult
  released : EventDto → ReleaseSeatsResult
  refused : RefusalReason → ReleaseSeatsResult
