-- ===== src/Event/Inventory/Reserve/Contract.antt =====
-- `processReserveSeatsMessage` and its contract.
use mathlib.Core.Option
use event_booking_system_mic.Sql.{Sql, holds, holds_found}
use event_booking_system_mic.Common.{
  ℕ, ◌≡◌, Option, Outcome, refl, is_some, some, false, none, true, ok, transaction, throws,
  Bool-cases, inl, ap, inr, ◌∙◌, Option-cases,
}
use event_booking_system_mic.Event.Inventory.Repository.{
  take_seats, process_reserve_seats_message, has_seats, positive, queue_row, refusal, success_row,
  failure_row, failure_reason,
}
use event_booking_system_mic.Event.Types.{
  EventRecord, ProcessReserveSeatsInput, EventDb, event_schema, processed_schema,
  ReserveSeatsResult, map_row, ProcessedMessage,
}
use event_booking_system_mic.Errors.{Thrown}
use event_booking_system_mic.Event.Inventory.Rows.{
  update_event-EventsKept, queue_row_effect, update_event-Changed, queue_row_throws,
  mark_processed-fresh, Queued-of,
}
use event_booking_system_mic.Event.Inventory.Reserve.Steps.{
  after_update, rest, take_seats-id, process_fresh, process_reserve-duplicate, take_found,
  take_nothing,
}
use event_booking_system_mic.Event.Inventory.Reserve.Spec.{Reserves, Refuses}

module _ (sql : Sql) where
  module _ (now : ℕ) (input : ProcessReserveSeatsInput) (db : EventDb sql)
      (rows : sql.Rows ProcessedMessage)
      (fresh : sql.find processed_schema input.message_id db.processed_messages ≡ none)
      (there : is_some (sql.find processed_schema input.message_id rows) ≡ true) where
    abbrev marked : EventDb sql
    marked = record db { processed_messages = rows }

    abbrev Ends : Outcome Thrown (ReserveSeatsResult × EventDb sql) → Type 0
    Ends r = Reserves sql now input db (transaction (λ (d : EventDb sql). r) db)

    Ends-found :
        (n : ℕ) (e : EventRecord)
        → positive input.quantity ≡ some n
        → sql.find event_schema input.event_id.value db.events ≡ some e
        → has_seats n e ≡ true
        → (r : Outcome Thrown (ReserveSeatsResult × EventDb sql))
        → queue_row sql
            (Option.map (success_row now) input.outbox_on_success)
            (ReserveSeatsResult.reserved (map_row (take_seats now n e)))
            (after_update sql now input n marked)
          ≡ r
        → Ends r
    Ends-found n e q f m (ok (a, after)) h =
        let (row, same, queued, events, processed) =
          queue_row_effect sql _ _ (after_update sql now input n marked) {a = a} {db' = after} h in
        let (found, changed) =
          update_event-Changed sql _ (has_seats n) (take_seats now n) marked e
            (take_seats-id sql now n) f m in
        rw same (
          n,
          e,
          q,
          m,
          refl,
          (found, λ j. ap (sql.find event_schema j) events ∙ changed j),
          Queued-of sql _ row (after_update sql now input n marked) db after refl queued,
          (fresh, rw processed there),
        )
    Ends-found n e q f m (throws t) h =
        let (_, _, same, _) = queue_row_throws sql _ _ (after_update sql now input n marked) h in
        (same, fresh, refl)

    Ends-nothing :
        (n : ℕ)
        → positive input.quantity ≡ some n
        → holds (has_seats n) (sql.find event_schema input.event_id.value db.events) ≡ false
        → (r : Outcome Thrown (ReserveSeatsResult × EventDb sql))
        → queue_row sql
            (Option.map
              (λ o.
                failure_row now o input.event_id
                  (failure_reason (sql.find event_schema input.event_id.value db.events)))
              input.outbox_on_failure)
            (ReserveSeatsResult.refused
              (refusal (sql.find event_schema input.event_id.value db.events)))
            (after_update sql now input n marked)
          ≡ r
        → Ends r
    Ends-nothing n q m (ok (a, after)) h =
        let (row, same, queued, events, processed) =
          queue_row_effect sql _ _ (after_update sql now input n marked) {a = a} {db' = after} h in
        let kept =
          update_event-EventsKept sql _ (has_seats n) (take_seats now n) marked
            (take_seats-id sql now n) m in
        rw same (
          λ j. ap (sql.find event_schema j) events ∙ kept j,
          Refuses.no_seats n q m refl
              (Queued-of sql _ row (after_update sql now input n marked) db after refl queued),
          (fresh, rw processed there),
        )
    Ends-nothing n q m (throws t) h =
        let (_, _, same, _) = queue_row_throws sql _ _ (after_update sql now input n marked) h in
        (same, fresh, refl)

    Ends-rest : (o : Option ℕ) → positive input.quantity ≡ o → Ends (rest sql now input o marked)
    Ends-rest none q = (λ j. refl, Refuses.bad_quantity q refl refl refl, (fresh, there))
    Ends-rest (some n) q =
        elim (Bool-cases
          (holds (has_seats n) (sql.find event_schema input.event_id.value db.events))) [
            | inl m ↦
                let (e, f, p) =
                  holds_found (has_seats n) (sql.find event_schema input.event_id.value db.events)
                    m in
                rw (take_found sql now input n marked e f p) (Ends-found n e q f p _ refl)
            | inr m ↦ rw (take_nothing sql now input n marked m) (Ends-nothing n q m _ refl)
          ]

  -- A call that ends as a duplicate found the message marked and changed nothing; one that reserves
  -- found the event with enough seats, took the positive quantity from it and from no other event,
  -- queued the success row, if one was given, and marked the message; one that refuses changed no
  -- event, gives the reason, queued the failure row that belongs to it, if one was given, and marked
  -- the message; and one that throws met a unique constraint and changed nothing.
  pub process_reserve-Reserves :
      (now : ℕ) (input : ProcessReserveSeatsInput) (db : EventDb sql)
      → Reserves sql now input db (process_reserve_seats_message sql now input db)
  process_reserve-Reserves now input db =
      elim (Option-cases (sql.find processed_schema input.message_id db.processed_messages)) [
        | inl e ↦
            let (rows, m, there) = mark_processed-fresh sql now input.message_id db e in
            rw (process_fresh sql now input db (record db { processed_messages = rows }) m refl)
              (Ends-rest now input db rows e there (positive input.quantity) refl)
        | inr (_, e) ↦ rw (process_reserve-duplicate sql now input db (rw e)) (rw e, refl)
      ]
