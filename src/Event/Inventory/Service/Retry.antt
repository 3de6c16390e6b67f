-- ===== src/Event/Inventory/Service/Retry.antt =====
-- A reservation that the bus delivers again after it was carried out, also where its answer could not
-- be published.
use event_booking_system_mic.Common.{
  ◌≡◌, ℕ, Outcome, ok, true, Option-cases, transaction, inl, throws, arith, inr, ap, sym, ◌∙◌,
  is_some, refl,
}
use event_booking_system_mic.Sql.{Sql}
use event_booking_system_mic.Event.Types.{
  ProcessReserveSeatsInput, EventDb, ReserveSeatsResult, processed_schema,
}
use event_booking_system_mic.Errors.{Thrown}
use event_booking_system_mic.Event.Inventory.Repository.{
  process_reserve_seats_message, positive, mark_published,
}
use event_booking_system_mic.Event.Inventory.Redelivery.{is_marked, take_or_refuse-processed}
use event_booking_system_mic.Event.Inventory.Reserve.Steps.{
  process_reserve-duplicate, rest, process_fresh,
}
use event_booking_system_mic.Event.Inventory.Rows.{mark_processed-fresh}
use event_booking_system_mic.Event.Cache.{EventCache}
use event_booking_system_mic.Outbox.Dispatch.{Publisher}
use event_booking_system_mic.Event.Inventory.Service.{
  reserve_seats, finish_reserve, FreshIds, publish_now, invalidate, InventoryWorld, reserve_input,
}
use event_booking_system_mic.Contracts.{MessageEnvelope, ReserveSeatsPayload}

module _ (sql : Sql) where
  marks_end :
      (now : ℕ) (input : ProcessReserveSeatsInput) (db marked : EventDb sql)
      (r : Outcome Thrown (ReserveSeatsResult × EventDb sql)) {a : ReserveSeatsResult}
      → is_marked sql input.message_id marked ≡ true
      → rest sql now input (positive input.quantity) marked ≡ r
      → (transaction (λ (d : EventDb sql). r) db).0 ≡ ok a
      → is_marked sql input.message_id (transaction (λ (d : EventDb sql). r) db).1 ≡ true
  marks_end now input db marked (throws e) m q h = absurd (ground arith)
  marks_end now input db marked (ok (a, after)) m q h =
      elim (Option-cases (positive input.quantity)) [
        | inl e ↦ ground arith
        | inr (n, e) ↦
            ground (arith, take_or_refuse-processed sql now input n marked {r = a} {db' = after})
      ]

  -- A reservation that did not throw has marked its message.
  pub process_reserve-marks :
      (now : ℕ) (input : ProcessReserveSeatsInput) (db : EventDb sql) {a : ReserveSeatsResult}
      → (process_reserve_seats_message sql now input db).0 ≡ ok a
      → is_marked sql input.message_id (process_reserve_seats_message sql now input db).1 ≡ true
  process_reserve-marks now input db {a} h =
      elim (Option-cases (sql.find processed_schema input.message_id db.processed_messages)) [
        | inl e ↦
            let (rows, m, found) = mark_processed-fresh sql now input.message_id db e in
            let marked : EventDb sql = record db { processed_messages = rows } in
            let fresh = process_fresh sql now input db marked m refl in
            rw (fresh) (
              marks_end now input db marked (rest sql now input (positive input.quantity) marked)
                {a = a} found refl (ap (λ x. x.0) (sym fresh) ∙ h))
        | inr (row, e) ↦
            let there = ap is_some e in rw (process_reserve-duplicate sql now input db there) there
      ]

  module _ (cache : EventCache) (publisher : Publisher) where
    reserve_seats-again :
        (now : ℕ) (ids : FreshIds) (m : MessageEnvelope ReserveSeatsPayload)
        (w : InventoryWorld sql cache publisher)
        → is_marked sql m.message_id w.db ≡ true
        → reserve_seats sql cache publisher now ids m w ≡ (ok tt, w)
    unfolding reserve_seats finish_reserve
    reserve_seats-again now ids m w h =
        ground (arith, process_reserve-duplicate sql now (reserve_input now ids m) w.db h)

    finish_reserve-is_marked :
        (now j : ℕ) (ids : FreshIds) (m : MessageEnvelope ReserveSeatsPayload)
        (r : Outcome Thrown ReserveSeatsResult) (w : InventoryWorld sql cache publisher)
        → is_marked sql j w.db ≡ true
        → is_marked sql j (finish_reserve sql cache publisher now ids m r w).1.db ≡ true
    unfolding finish_reserve publish_now invalidate mark_published
    finish_reserve-is_marked now j ids m (throws e) w h = h
    finish_reserve-is_marked now j ids m (ok ReserveSeatsResult.duplicate) w h = h
    finish_reserve-is_marked now j ids m (ok (ReserveSeatsResult.refused reason row)) w h =
        ground (arith, h)
    finish_reserve-is_marked now j ids m (ok (ReserveSeatsResult.reserved e row)) w h =
        ground (arith, h)

    reserve_seats-is_marked :
        (now : ℕ) (ids : FreshIds) (m : MessageEnvelope ReserveSeatsPayload)
        (w : InventoryWorld sql cache publisher) {a : ReserveSeatsResult}
        → (process_reserve_seats_message sql now (reserve_input now ids m) w.db).0 ≡ ok a
        → is_marked sql m.message_id (reserve_seats sql cache publisher now ids m w).1.db ≡ true
    unfolding reserve_seats
    reserve_seats-is_marked now ids m w {a} h =
        let input = reserve_input now ids m in
        let (r, db) = process_reserve_seats_message sql now input w.db in
        finish_reserve-is_marked now m.message_id ids m r (record w { db = db })
          (process_reserve-marks now input w.db {a = a} h)

    -- Where the repository has carried out a reservation, the handler of a message with the same
    -- id, on the state that the first call left and after any outcome of it, a failed publication
    -- included, ends well and changes neither the database nor the cache nor the bus.
    pub reserve_seats_retried :
        (now : ℕ) (ids : FreshIds) (m : MessageEnvelope ReserveSeatsPayload)
        (w : InventoryWorld sql cache publisher) {a : ReserveSeatsResult}
        → (process_reserve_seats_message sql now (reserve_input now ids m) w.db).0 ≡ ok a
        → (later : ℕ) (ids' : FreshIds) (m' : MessageEnvelope ReserveSeatsPayload)
        → m'.message_id ≡ m.message_id
        → let w' = (reserve_seats sql cache publisher now ids m w).1 in
          reserve_seats sql cache publisher later ids' m' w' ≡ (ok tt, w')
    reserve_seats_retried now ids m w {a} h later ids' m' e =
        reserve_seats-again later ids' m' (reserve_seats sql cache publisher now ids m w).1
          (rw e (reserve_seats-is_marked now ids m w h))
