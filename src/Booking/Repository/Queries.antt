-- ===== src/Booking/Repository/Queries.antt =====
-- The reads of `PrismaBookingRepository`, `markMessageProcessed`, and its outbox statements.
use Prim.Native.String.{String}
use mathlib.Core.Option
use event_booking_system_mic.Common.{
  ℕ, ◌-◌, ◌*◌, Bool, Option, none, some, List, map, ◌==◌, is_some, Outcome, ok, throws,
}
use event_booking_system_mic.Errors.{Thrown, unique_violation}
use event_booking_system_mic.Sql.{Sql, upsert}
use event_booking_system_mic.Outbox.{
  OutboxRecord, claim_outbox_messages, mark_outbox_published, record_outbox_failure,
}
use event_booking_system_mic.Booking.Types.{BookingDto, BookingDb, booking_schema, processed_schema}
use event_booking_system_mic.Booking.Repository.Rows.{map_row}

module _ (sql : Sql) where
  unfoldable pub find_by_id : ℕ → BookingDb sql → Option BookingDto
  find_by_id id db = Option.map map_row (sql.find booking_schema id db.bookings)

  -- `page` is at least 1 (`paginationQuerySchema`).
  unfoldable pub find_by_user_id : ℕ → ℕ → ℕ → BookingDb sql → List BookingDto
  find_by_user_id user_id page page_size db = map map_row (
      sql.find_many booking_schema (λ b. b.user_id == user_id) (λ b. b.created_at)
        ((page - 1) * page_size) page_size db.bookings)

  unfoldable pub find_by_idempotency_key : ℕ → BookingDb sql → Option BookingDto
  find_by_idempotency_key key db = Option.map map_row (sql.find_by booking_schema key db.bookings)

  unfoldable pub has_processed_message : ℕ → BookingDb sql → Bool
  has_processed_message message_id db =
      is_some (sql.find processed_schema message_id db.processed_messages)

  unfoldable pub mark_message_processed :
      ℕ → ℕ → BookingDb sql → Outcome Thrown (Unit {0}) × BookingDb sql
  mark_message_processed now message_id db =
      elim (upsert sql processed_schema message_id (λ r. r)
        (record { message_id = message_id; processed_at = now }) db.processed_messages) [
          | none ↦ (throws unique_violation, db)
          | some rows ↦ (ok tt, record db { processed_messages = rows })
        ]

  unfoldable pub claim_outbox :
      ℕ → ℕ → ℕ → ℕ → ℕ → BookingDb sql → List OutboxRecord × BookingDb sql
  claim_outbox worker limit timeout max_attempts now db =
      let (outbox, rows) =
        claim_outbox_messages sql worker limit timeout max_attempts now db.outbox in
      (rows, record db { outbox = outbox })

  unfoldable pub mark_published : ℕ → Option ℕ → ℕ → BookingDb sql → BookingDb sql
  mark_published id worker now db = record db {
    outbox = mark_outbox_published sql id worker now db.outbox;
  }

  unfoldable pub record_failure : ℕ → ℕ → String → ℕ → ℕ → ℕ → BookingDb sql → BookingDb sql
  record_failure id worker error max_attempts backoff now db = record db {
    outbox = record_outbox_failure sql id worker error max_attempts backoff now db.outbox;
  }
