-- ===== src/Event/Inventory/Reserve/Spec.antt =====
-- The contract of `processReserveSeatsMessage`, in words of the database.
use mathlib.Core.Option
use event_booking_system_mic.Sql.{Sql, holds}
use event_booking_system_mic.Common.{
  ℕ, ◌≡◌, Option, Outcome, is_some, some, false, none, true, ok, throws,
}
use event_booking_system_mic.Event.Inventory.Repository.{
  take_seats, has_seats, positive, refusal, success_row, failure_row, failure_reason,
}
use event_booking_system_mic.Event.Types.{
  EventRecord, ProcessReserveSeatsInput, EventDb, event_schema, RefusalReason, processed_schema,
  ReserveSeatsResult, map_row,
}
use event_booking_system_mic.Errors.{Thrown, unique_violation}
use event_booking_system_mic.Event.Inventory.Rows.{Queued, Changed, IsMarked, EventsKept}

module _ (sql : Sql) where
  -- Why no seats were taken: the quantity is no positive integer, which queues nothing, or the
  -- event is not there or has too few seats, which queues the failure message.
  pub data Refuses (now : ℕ) (input : ProcessReserveSeatsInput) (db after : EventDb sql)
      (reason : RefusalReason) (row : Option ℕ) : Type 0 where
    bad_quantity :
        positive input.quantity ≡ none
        → reason ≡ RefusalReason.invalid_quantity
        → row ≡ none
        → after.outbox ≡ db.outbox
        → Refuses now input db after reason row
    no_seats :
        (n : ℕ)
        → positive input.quantity ≡ some n
        → holds (has_seats n) (sql.find event_schema input.event_id.value db.events) ≡ false
        → reason ≡ refusal (sql.find event_schema input.event_id.value db.events)
        → Queued sql
            (Option.map
              (λ o.
                failure_row now o input.event_id
                  (failure_reason (sql.find event_schema input.event_id.value db.events)))
              input.outbox_on_failure)
            row
            db
            after
        → Refuses now input db after reason row

  -- How a call on `db` may end, and what it has then done.
  abbrev pub Reserves :
      ℕ
      → ProcessReserveSeatsInput
      → EventDb sql
      → Outcome Thrown ReserveSeatsResult × EventDb sql
      → Type 0
  Reserves now input db (ok ReserveSeatsResult.duplicate, after) =
      (is_some (sql.find processed_schema input.message_id db.processed_messages) ≡ true)
      × (after ≡ db)
  Reserves now input db (ok (ReserveSeatsResult.reserved dto row), after) =
      (n : ℕ) × (e : EventRecord) × (positive input.quantity ≡ some n)
      × (has_seats n e ≡ true)
      × (dto ≡ map_row (take_seats now n e))
      × Changed sql input.event_id.value (take_seats now n) e db after
      × Queued sql (Option.map (success_row now) input.outbox_on_success) row db after
      × IsMarked sql input.message_id db after
  Reserves now input db (ok (ReserveSeatsResult.refused reason row), after) =
      EventsKept sql db after
      × Refuses now input db after reason row
      × IsMarked sql input.message_id db after
  Reserves now input db (throws e, after) =
      (e ≡ unique_violation)
      × (sql.find processed_schema input.message_id db.processed_messages ≡ none)
      × (after ≡ db)
