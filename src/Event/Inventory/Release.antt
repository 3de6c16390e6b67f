-- ===== src/Event/Inventory/Release.antt =====
-- The contract of `processReleaseSeatsMessage`.
use event_booking_system_mic.Sql.{Sql, holds, holds_found}
use event_booking_system_mic.Common.{
  ℕ, Option, ◌≡◌, is_some, refl, some, Option-cases, none, inl, arith, true, false, Bool-cases, inr,
  ◌⊎◌,
}
use event_booking_system_mic.Event.Inventory.Repository.{
  process_release_seats_message, give_seats, mark_processed, give_or_refuse, positive, has_room,
}
use event_booking_system_mic.Event.Types.{
  EventRecord, ProcessReleaseSeatsInput, RefusalReason, EventDb, ReleaseSeatsResult,
  ProcessedMessage, event_schema, processed_schema, map_row,
}
use event_booking_system_mic.Event.Inventory.Rows.{
  mark_processed-taken, mark_processed-fresh, first-update_event, update_event-EventsKept, Changed,
  update_event-Changed, IsMarked, EventsKept,
}

module _ (sql : Sql) where
  -- The reason that is given where the UPDATE changed nothing.
  abbrev pub release_refusal : Option EventRecord → RefusalReason
  release_refusal none = RefusalReason.event_not_found
  release_refusal (some _) = RefusalReason.capacity_exceeded

  -- How a call on `db` may end, and what it has then done.
  abbrev pub Releases :
      ℕ → ProcessReleaseSeatsInput → EventDb sql → ReleaseSeatsResult × EventDb sql → Type 0
  Releases now input db (ReleaseSeatsResult.duplicate, after) =
      (is_some (sql.find processed_schema input.message_id db.processed_messages) ≡ true)
      × (after ≡ db)
  Releases now input db (ReleaseSeatsResult.released dto, after) =
      (n : ℕ) × (e : EventRecord) × (positive input.quantity ≡ some n)
      × (has_room n e ≡ true)
      × (dto ≡ map_row (give_seats now n e))
      × Changed sql input.event_id.value (give_seats now n) e db after
      × (after.outbox ≡ db.outbox)
      × IsMarked sql input.message_id db after
  Releases now input db (ReleaseSeatsResult.refused reason, after) =
      EventsKept sql db after
      × (((positive input.quantity ≡ none) × (reason ≡ RefusalReason.invalid_quantity))
          ⊎ ((n : ℕ) × (positive input.quantity ≡ some n)
              × (holds (has_room n) (sql.find event_schema input.event_id.value db.events) ≡ false)
              × (reason ≡ release_refusal (sql.find event_schema input.event_id.value db.events))))
      × (after.outbox ≡ db.outbox)
      × IsMarked sql input.message_id db after

  give_seats-id : (now n : ℕ) (e : EventRecord) → (give_seats now n e).id ≡ e.id
  unfolding give_seats
  give_seats-id now n e = refl

  module _ (now : ℕ) (input : ProcessReleaseSeatsInput) (n : ℕ) (db : EventDb sql) where
    abbrev after_update : EventDb sql
    after_update = record db {
      events =
          (sql.update event_schema input.event_id.value (has_room n) (give_seats now n)
            db.events).0;
    }

    give_found :
        (e : EventRecord)
        → sql.find event_schema input.event_id.value db.events ≡ some e
        → has_room n e ≡ true
        → give_or_refuse sql now input n db
          ≡ (ReleaseSeatsResult.released (map_row (give_seats now n e)), after_update)
    unfolding give_or_refuse
    give_found e f m =
        ground
          (arith, first-update_event sql input.event_id.value (has_room n) (give_seats now n) db)

    give_nothing :
        holds (has_room n) (sql.find event_schema input.event_id.value db.events) ≡ false
        → give_or_refuse sql now input n db ≡ (
          ReleaseSeatsResult.refused
              (release_refusal (sql.find event_schema input.event_id.value db.events)),
          after_update,
        )
    unfolding give_or_refuse
    give_nothing m = ground (
      arith,
      first-update_event sql input.event_id.value (has_room n) (give_seats now n) db,
      update_event-EventsKept sql input.event_id.value (has_room n) (give_seats now n) db
          (give_seats-id now n) m input.event_id.value,
    )

  pub process_release-duplicate :
      (now : ℕ) (input : ProcessReleaseSeatsInput) (db : EventDb sql)
      → is_some (sql.find processed_schema input.message_id db.processed_messages) ≡ true
      → process_release_seats_message sql now input db ≡ (ReleaseSeatsResult.duplicate, db)
  unfolding process_release_seats_message
  process_release-duplicate now input db h =
      ground (arith, mark_processed-taken sql now input.message_id db h)

  -- What follows the mark.
  abbrev rest :
      ℕ → ProcessReleaseSeatsInput → Option ℕ → EventDb sql → ReleaseSeatsResult × EventDb sql
  rest now input none db = (ReleaseSeatsResult.refused RefusalReason.invalid_quantity, db)
  rest now input (some n) db = give_or_refuse sql now input n db

  process_fresh :
      (now : ℕ) (input : ProcessReleaseSeatsInput) (db marked : EventDb sql)
      → mark_processed sql now input.message_id db ≡ some marked
      → process_release_seats_message sql now input db
        ≡ rest now input (positive input.quantity) marked
  unfolding process_release_seats_message
  process_fresh now input db marked m = ground arith

  module _ (now : ℕ) (input : ProcessReleaseSeatsInput) (db : EventDb sql)
      (rows : sql.Rows ProcessedMessage)
      (fresh : sql.find processed_schema input.message_id db.processed_messages ≡ none)
      (there : is_some (sql.find processed_schema input.message_id rows) ≡ true) where
    abbrev marked : EventDb sql
    marked = record db { processed_messages = rows }

    Ends-rest :
        (o : Option ℕ)
        → positive input.quantity ≡ o
        → Releases now input db (rest now input o marked)
    Ends-rest none q = (λ j. refl, inl (q, refl), refl, (fresh, there))
    Ends-rest (some n) q =
        let found = sql.find event_schema input.event_id.value db.events in
        elim (Bool-cases (holds (has_room n) found)) [
          | inl m ↦
              let (e, f, p) = holds_found (has_room n) found m in
              rw (give_found now input n marked e f p) (
                n,
                e,
                q,
                p,
                refl,
                update_event-Changed sql input.event_id.value (has_room n) (give_seats now n) marked
                    e (give_seats-id now n) f p,
                refl,
                (fresh, there),
              )
          | inr m ↦ rw (give_nothing now input n marked m) (
            update_event-EventsKept sql input.event_id.value (has_room n) (give_seats now n) marked
                (give_seats-id now n) m,
            inr (n, q, m, refl),
            refl,
            (fresh, there),
          )
        ]

  -- A call that ends as a duplicate changed nothing; one that releases gave the positive quantity back
  -- to the event, which had room for it within its capacity, and to no other event; one that refuses
  -- changed no event. No branch queues an event.
  pub process_release-Releases :
      (now : ℕ) (input : ProcessReleaseSeatsInput) (db : EventDb sql)
      → Releases now input db (process_release_seats_message sql now input db)
  process_release-Releases now input db =
      elim (Option-cases (sql.find processed_schema input.message_id db.processed_messages)) [
        | inl e ↦
            let (rows, m, there) = mark_processed-fresh sql now input.message_id db e in
            rw (process_fresh now input db (record db { processed_messages = rows }) m)
              (Ends-rest now input db rows e there (positive input.quantity) refl)
        | inr (_, e) ↦ rw (process_release-duplicate now input db (rw e)) (rw e, refl)
      ]
