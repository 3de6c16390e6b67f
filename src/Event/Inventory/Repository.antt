-- ===== src/Event/Inventory/Repository.antt =====
-- The operations of `PrismaInventoryRepository`; a method of one transaction is one step.
use Prim.Native.String.{String}
use mathlib.Core.Option
use event_booking_system_mic.Common.{
  Option, ℕ, if◌then◌else◌, Outcome, ◌-◌, ◌+◌, Bool, List, ◌==◌, leb, is_some, some, none,
  transaction, first, ok, throws,
}
use event_booking_system_mic.Event.Types.{
  Number, ProcessReserveSeatsInput, FailureInput, SuccessInput, EventDb, ProcessReleaseSeatsInput,
  EventRecord, EventDto, ReserveSeatsResult, RefusalReason, ReleaseSeatsResult, event_schema,
  processed_schema, map_row,
}
use event_booking_system_mic.Sql.{Sql}
use event_booking_system_mic.Outbox.{
  OutboxRecord, record_outbox_failure, mark_outbox_published, new_row, claim_outbox_messages,
  outbox_schema,
}
use event_booking_system_mic.Contracts.{UuidText, FailureReason, Message, Payload}
use event_booking_system_mic.Errors.{Thrown, unique_violation}

-- `Number.isInteger(quantity) && quantity > 0`, with the quantity
abbrev pub positive : Number → Option ℕ
positive (Number.nat n) = if n == 0 then none else some n
positive (Number.negative n) = none
positive Number.fractional = none

-- `available_seats >= quantity`
unfoldable pub has_seats : ℕ → EventRecord → Bool
has_seats quantity e = leb quantity e.available_seats

-- The subtraction is exact where `has_seats` holds.
unfoldable pub take_seats : ℕ → ℕ → EventRecord → EventRecord
take_seats now quantity e = record e {
  available_seats = e.available_seats - quantity;
  updated_at = now;
}

-- `available_seats + quantity <= total_seats`
unfoldable pub has_room : ℕ → EventRecord → Bool
has_room quantity e = leb (e.available_seats + quantity) e.total_seats

unfoldable pub give_seats : ℕ → ℕ → EventRecord → EventRecord
give_seats now quantity e = record e {
  available_seats = e.available_seats + quantity;
  updated_at = now;
}

-- A row that `eventOutboxEvent.create` inserts.
abbrev pub success_row : ℕ → SuccessInput → OutboxRecord
success_row now o =
    record (new_row now (record { id = o.id; topic = o.topic; message = o.message })) {
      message_id = o.message_id;
    }

-- The `reason` of the failure message.
abbrev pub failure_reason : Option EventRecord → FailureReason
failure_reason none = FailureReason.event_not_found
failure_reason (some _) = FailureReason.insufficient_seats

abbrev pub refusal : Option EventRecord → RefusalReason
refusal none = RefusalReason.event_not_found
refusal (some _) = RefusalReason.insufficient_seats

abbrev pub failure_message : ℕ → FailureInput → UuidText → FailureReason → Message
failure_message now o event_id reason = record {
  event_id = none;
  message_id = o.message_id;
  correlation_id = o.correlation_id;
  timestamp = now;
  version = 1;
  payload =
      Payload.seat_reservation_failed
        (record { booking_id = o.booking_id; event_id = event_id; reason = reason });
}

abbrev pub failure_row : ℕ → FailureInput → UuidText → FailureReason → OutboxRecord
failure_row now o event_id reason =
    new_row now
      (record { id = o.id; topic = o.topic; message = failure_message now o event_id reason })

module _ (sql : Sql) where
  -- `reserveSeats`
  unfoldable pub reserve_seats : ℕ → ℕ → Number → EventDb sql → Option EventDto × EventDb sql
  reserve_seats now event_id quantity db = elim (positive quantity) [
    | none ↦ (none, db)
    | some n ↦
        let (events, rows) =
          sql.update event_schema event_id (has_seats n) (take_seats now n) db.events in
        (Option.map map_row (first rows), record db { events = events })
  ]

  -- `releaseSeats`
  unfoldable pub release_seats : ℕ → ℕ → Number → EventDb sql → Option EventDto × EventDb sql
  release_seats now event_id quantity db = elim (positive quantity) [
    | none ↦ (none, db)
    | some n ↦
        let (events, rows) =
          sql.update event_schema event_id (has_room n) (give_seats now n) db.events in
        (Option.map map_row (first rows), record db { events = events })
  ]

  unfoldable pub has_processed_message : ℕ → EventDb sql → Bool
  has_processed_message message_id db =
      is_some (sql.find processed_schema message_id db.processed_messages)

  -- `processedEventMessage.create`; `none` is its unique constraint error.
  unfoldable pub mark_processed : ℕ → ℕ → EventDb sql → Option (EventDb sql)
  mark_processed now message_id db =
      elim (sql.create processed_schema (record { message_id = message_id; processed_at = now })
        db.processed_messages) [
          | none ↦ none
          | some rows ↦ some (record db { processed_messages = rows })
        ]

  -- `markMessageProcessed`: that the message is marked already is no error.
  unfoldable pub mark_message_processed : ℕ → ℕ → EventDb sql → EventDb sql
  mark_message_processed now message_id db = elim (mark_processed now message_id db) [
    | none ↦ db
    | some db' ↦ db'
  ]

  -- `if (input.outbox…) outboxRowId = (await tx.eventOutboxEvent.create(…)).id`, the end of a branch
  unfoldable pub queue_row :
      Option OutboxRecord
      → (Option ℕ → ReserveSeatsResult)
      → EventDb sql
      → Outcome Thrown (ReserveSeatsResult × EventDb sql)
  queue_row none answer db = ok (answer none, db)
  queue_row (some row) answer db = elim (sql.create outbox_schema row db.outbox) [
    | none ↦ throws unique_violation
    | some outbox ↦ ok (answer (some row.id), record db { outbox = outbox })
  ]

  -- From the UPDATE to the end of `processReserveSeatsMessage`.
  unfoldable pub take_or_refuse :
      ℕ
      → ProcessReserveSeatsInput
      → ℕ
      → EventDb sql
      → Outcome Thrown (ReserveSeatsResult × EventDb sql)
  take_or_refuse now input n db =
      let (events, rows) =
        sql.update event_schema input.event_id.value (has_seats n) (take_seats now n) db.events in
      let db' = record db { events = events } in
      elim (first rows) [
        | some e ↦
            queue_row (Option.map (success_row now) input.outbox_on_success)
              (ReserveSeatsResult.reserved (map_row e)) db'
        | none ↦
            let event = sql.find event_schema input.event_id.value db'.events in
            queue_row
              (Option.map (λ o. failure_row now o input.event_id (failure_reason event))
                input.outbox_on_failure)
              (ReserveSeatsResult.refused (refusal event)) db'
      ]

  unfoldable pub process_reserve_seats_message :
      ℕ → ProcessReserveSeatsInput → EventDb sql → Outcome Thrown ReserveSeatsResult × EventDb sql
  process_reserve_seats_message now input = transaction λ tx.
      elim (mark_processed now input.message_id tx) [
        | none ↦ ok (ReserveSeatsResult.duplicate, tx)
        | some tx' ↦ elim (positive input.quantity) [
          | none ↦ ok (ReserveSeatsResult.refused RefusalReason.invalid_quantity none, tx')
          | some n ↦ take_or_refuse now input n tx'
        ]
      ]

  -- From the UPDATE to the end of `processReleaseSeatsMessage`.
  unfoldable pub give_or_refuse :
      ℕ → ProcessReleaseSeatsInput → ℕ → EventDb sql → ReleaseSeatsResult × EventDb sql
  give_or_refuse now input n db =
      let (events, rows) =
        sql.update event_schema input.event_id.value (has_room n) (give_seats now n) db.events in
      let db' = record db { events = events } in
      elim (first rows) [
        | some e ↦ (ReleaseSeatsResult.released (map_row e), db')
        | none ↦ (
          ReleaseSeatsResult.refused (
              if is_some (sql.find event_schema input.event_id.value db'.events)
              then RefusalReason.capacity_exceeded
              else RefusalReason.event_not_found),
          db',
        )
      ]

  -- Nothing in this transaction throws but the duplicate that is caught.
  unfoldable pub process_release_seats_message :
      ℕ → ProcessReleaseSeatsInput → EventDb sql → ReleaseSeatsResult × EventDb sql
  process_release_seats_message now input db = elim (mark_processed now input.message_id db) [
    | none ↦ (ReleaseSeatsResult.duplicate, db)
    | some tx ↦ elim (positive input.quantity) [
      | none ↦ (ReleaseSeatsResult.refused RefusalReason.invalid_quantity, tx)
      | some n ↦ give_or_refuse now input n tx
    ]
  ]

  unfoldable pub claim_outbox : ℕ → ℕ → ℕ → ℕ → ℕ → EventDb sql → List OutboxRecord × EventDb sql
  claim_outbox worker limit timeout max_attempts now db =
      let (outbox, rows) =
        claim_outbox_messages sql worker limit timeout max_attempts now db.outbox in
      (rows, record db { outbox = outbox })

  unfoldable pub mark_published : ℕ → Option ℕ → ℕ → EventDb sql → EventDb sql
  mark_published id worker now db = record db {
    outbox = mark_outbox_published sql id worker now db.outbox;
  }

  unfoldable pub record_failure : ℕ → ℕ → String → ℕ → ℕ → ℕ → EventDb sql → EventDb sql
  record_failure id worker error max_attempts backoff now db = record db {
    outbox = record_outbox_failure sql id worker error max_attempts backoff now db.outbox;
  }
