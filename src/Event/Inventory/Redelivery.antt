-- ===== src/Event/Inventory/Redelivery.antt =====
-- The marks of processed messages along deliveries.
use event_booking_system_mic.Sql.{Sql}
use event_booking_system_mic.Event.Inventory.Deliveries.{deliver, run, Delivery, reserve, release}
use event_booking_system_mic.Event.Inventory.Repository.{
  mark_processed, take_or_refuse, process_release_seats_message, give_or_refuse, queue_row,
  process_reserve_seats_message, positive,
}
use event_booking_system_mic.Common.{
  ℕ, List, Bool, Outcome, ◌≡◌, ok, true, is_some, some, arith, Option-cases, inl, [], inr,
  transaction, throws, refl, ◌∷◌,
}
use event_booking_system_mic.Event.Types.{
  ProcessReleaseSeatsInput, EventDb, ProcessReserveSeatsInput, ReserveSeatsResult, ProcessedMessage,
  processed_schema,
}
use event_booking_system_mic.Errors.{Thrown}
use event_booking_system_mic.Event.Inventory.Reserve.Steps.{
  process_reserve-duplicate, rest, process_fresh,
}
use event_booking_system_mic.Event.Inventory.Release.{process_release-duplicate}

module _ (sql : Sql) where
  abbrev pub is_marked : ℕ → EventDb sql → Bool
  is_marked j db = is_some (sql.find processed_schema j db.processed_messages)

  mark_processed_keeps :
      (now message_id : ℕ) (db db' : EventDb sql) (j : ℕ)
      → mark_processed sql now message_id db ≡ some db'
      → is_marked j db ≡ true
      → is_marked j db' ≡ true
  unfolding mark_processed
  mark_processed_keeps now message_id db db' j h m =
      let row : ProcessedMessage = record { message_id = message_id; processed_at = now } in
      ground (
        arith,
        sql.find-create processed_schema row db.processed_messages {t' = db'.processed_messages} j,
      )

  pub take_or_refuse-processed :
      (now : ℕ) (input : ProcessReserveSeatsInput) (n : ℕ) (db : EventDb sql)
      {r : ReserveSeatsResult} {db' : EventDb sql}
      → take_or_refuse sql now input n db ≡ ok (r, db')
      → db'.processed_messages ≡ db.processed_messages
  unfolding take_or_refuse queue_row
  take_or_refuse-processed now input n db h = ground arith

  give_or_refuse-processed :
      (now : ℕ) (input : ProcessReleaseSeatsInput) (n : ℕ) (db : EventDb sql)
      → (give_or_refuse sql now input n db).1.processed_messages ≡ db.processed_messages
  unfolding give_or_refuse
  give_or_refuse-processed now input n db = ground arith

  reserve_end_keeps :
      (now : ℕ) (input : ProcessReserveSeatsInput) (db marked : EventDb sql) (j : ℕ)
      (r : Outcome Thrown (ReserveSeatsResult × EventDb sql))
      → is_marked j db ≡ true
      → is_marked j marked ≡ true
      → rest sql now input (positive input.quantity) marked ≡ r
      → is_marked j (transaction (λ (d : EventDb sql). r) db).1 ≡ true
  reserve_end_keeps now input db marked j (throws e) h m q = h
  reserve_end_keeps now input db marked j (ok (a, after)) h m q =
      elim (Option-cases (positive input.quantity)) [
        | inl e ↦ ground arith
        | inr (n, e) ↦
            ground (arith, take_or_refuse-processed now input n marked {r = a} {db' = after})
      ]

  reserve_keeps :
      (now : ℕ) (input : ProcessReserveSeatsInput) (db : EventDb sql) (j : ℕ)
      → is_marked j db ≡ true
      → is_marked j (process_reserve_seats_message sql now input db).1 ≡ true
  reserve_keeps now input db j h =
      elim (Option-cases (mark_processed sql now input.message_id db)) [
        | inl e ↦ unfold process_reserve_seats_message in ground arith
        | inr (marked, e) ↦ rw (process_fresh sql now input db marked e refl) (
            reserve_end_keeps now input db marked j _ h
              (mark_processed_keeps now input.message_id db marked j e h) refl)
      ]

  release_keeps :
      (now : ℕ) (input : ProcessReleaseSeatsInput) (db : EventDb sql) (j : ℕ)
      → is_marked j db ≡ true
      → is_marked j (process_release_seats_message sql now input db).1 ≡ true
  unfolding process_release_seats_message
  release_keeps now input db j h =
      elim (Option-cases (mark_processed sql now input.message_id db)) [
        | inl e ↦ ground arith
        | inr (marked, e) ↦ elim (Option-cases (positive input.quantity)) [
          | inl q ↦ ground (arith, mark_processed_keeps now input.message_id db marked j e h)
          | inr (n, q) ↦ ground (
            arith,
            mark_processed_keeps now input.message_id db marked j e h,
            give_or_refuse-processed now input n marked,
          )
        ]
      ]

  pub run_keeps_marks :
      (k : ℕ) (ds : List Delivery) (db : EventDb sql) (j : ℕ)
      → is_marked j db ≡ true
      → is_marked j (run sql k ds db).db ≡ true
  unfolding run deliver
  run_keeps_marks k [] db j h = h
  run_keeps_marks k ((reserve now input) ∷ ds) db j h =
      run_keeps_marks k ds (process_reserve_seats_message sql now input db).1 j
        (reserve_keeps now input db j h)
  run_keeps_marks k ((release now input) ∷ ds) db j h =
      run_keeps_marks k ds (process_release_seats_message sql now input db).1 j
        (release_keeps now input db j h)

  abbrev pub message_of : Delivery → ℕ
  message_of (reserve now input) = input.message_id
  message_of (release now input) = input.message_id

  -- A message that is marked, delivered after any other deliveries, takes and gives no seat and
  -- leaves the database as it is.
  pub redelivery_harmless :
      (k : ℕ) (d : Delivery) (ds : List Delivery) (db : EventDb sql)
      → is_marked (message_of d) db ≡ true
      → deliver sql k d (run sql k ds db).db
        ≡ record { db = (run sql k ds db).db; taken = 0; given = 0 }
  unfolding deliver
  redelivery_harmless k (reserve now input) ds db h =
      let db' = (run sql k ds db).db in
      rw (process_reserve-duplicate sql now input db' (run_keeps_marks k ds db input.message_id h))
  redelivery_harmless k (release now input) ds db h =
      let db' = (run sql k ds db).db in
      rw (process_release-duplicate sql now input db' (run_keeps_marks k ds db input.message_id h))
