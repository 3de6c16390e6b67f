-- ===== src/Event/Inventory/Reserve/Steps.antt =====
-- What `processReserveSeatsMessage` computes, branch by branch.
use mathlib.Core.Option
use event_booking_system_mic.Sql.{Sql, holds}
use event_booking_system_mic.Common.{
  ℕ, ◌≡◌, Option, Outcome, refl, is_some, some, false, none, true, ok, transaction, arith,
}
use event_booking_system_mic.Event.Inventory.Repository.{
  take_seats, process_reserve_seats_message, take_or_refuse, has_seats, positive, queue_row,
  refusal, mark_processed, success_row, failure_row, failure_reason,
}
use event_booking_system_mic.Event.Types.{
  EventRecord, ProcessReserveSeatsInput, EventDb, event_schema, RefusalReason, processed_schema,
  ReserveSeatsResult, map_row,
}
use event_booking_system_mic.Errors.{Thrown}
use event_booking_system_mic.Event.Inventory.Rows.{
  mark_processed-taken, first-update_event, update_event-EventsKept,
}

module _ (sql : Sql) where
  pub take_seats-id : (now n : ℕ) (e : EventRecord) → (take_seats now n e).id ≡ e.id
  unfolding take_seats
  take_seats-id now n e = refl

  pub process_reserve-duplicate :
      (now : ℕ) (input : ProcessReserveSeatsInput) (db : EventDb sql)
      → is_some (sql.find processed_schema input.message_id db.processed_messages) ≡ true
      → process_reserve_seats_message sql now input db ≡ (ok ReserveSeatsResult.duplicate, db)
  unfolding process_reserve_seats_message
  process_reserve-duplicate now input db h =
      ground (arith, mark_processed-taken sql now input.message_id db h)

  -- What follows the mark.
  abbrev pub rest :
      ℕ
      → ProcessReserveSeatsInput
      → Option ℕ
      → EventDb sql
      → Outcome Thrown (ReserveSeatsResult × EventDb sql)
  rest now input none db = ok (ReserveSeatsResult.refused RefusalReason.invalid_quantity none, db)
  rest now input (some n) db = take_or_refuse sql now input n db

  pub process_fresh :
      (now : ℕ) (input : ProcessReserveSeatsInput) (db marked : EventDb sql)
      {r : Outcome Thrown (ReserveSeatsResult × EventDb sql)}
      → mark_processed sql now input.message_id db ≡ some marked
      → rest now input (positive input.quantity) marked ≡ r
      → process_reserve_seats_message sql now input db ≡ transaction (λ (d : EventDb sql). r) db
  unfolding process_reserve_seats_message
  process_fresh now input db marked m e = ground arith

  module _ (now : ℕ) (input : ProcessReserveSeatsInput) (n : ℕ) (db : EventDb sql) where
    abbrev pub after_update : EventDb sql
    after_update = record db {
      events =
          (sql.update event_schema input.event_id.value (has_seats n) (take_seats now n)
            db.events).0;
    }

    pub take_found :
        (e : EventRecord)
        → sql.find event_schema input.event_id.value db.events ≡ some e
        → has_seats n e ≡ true
        → take_or_refuse sql now input n db
          ≡ queue_row sql
              (Option.map (success_row now) input.outbox_on_success)
              (ReserveSeatsResult.reserved (map_row (take_seats now n e)))
              after_update
    unfolding take_or_refuse
    take_found e f m =
        ground
          (arith, first-update_event sql input.event_id.value (has_seats n) (take_seats now n) db)

    pub take_nothing :
        holds (has_seats n) (sql.find event_schema input.event_id.value db.events) ≡ false
        → take_or_refuse sql now input n db
          ≡ queue_row sql
              (Option.map
                (λ o.
                  failure_row now o input.event_id
                    (failure_reason (sql.find event_schema input.event_id.value db.events)))
                input.outbox_on_failure)
              (ReserveSeatsResult.refused
                (refusal (sql.find event_schema input.event_id.value db.events)))
              after_update
    unfolding take_or_refuse
    take_nothing m = ground (
      arith,
      first-update_event sql input.event_id.value (has_seats n) (take_seats now n) db,
      update_event-EventsKept sql input.event_id.value (has_seats n) (take_seats now n) db
          (take_seats-id now n) m input.event_id.value,
    )
