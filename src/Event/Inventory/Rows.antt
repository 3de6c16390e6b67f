-- ===== src/Event/Inventory/Rows.antt =====
-- What one statement of the inventory repository does to the rows of the database.
use event_booking_system_mic.Sql.{
  Sql, holds, returned, updated, create_fresh, create-taken_key, find-create_self,
}
use event_booking_system_mic.Event.Inventory.Repository.{mark_processed, queue_row}
use event_booking_system_mic.Event.Types.{
  EventDb, EventRecord, event_schema, processed_schema, ReserveSeatsResult, ProcessedMessage,
}
use event_booking_system_mic.Common.{
  Option, ℕ, is_some, Bool, ◌≡◌, true, if◌then◌else◌, ok, some, none, first, throws, arith, false,
  ◌==◌, ==_iff, ap, refl, ◌∙◌,
}
use event_booking_system_mic.Outbox.{OutboxRecord, outbox_schema}
use event_booking_system_mic.Errors.{Thrown, unique_violation}

module _ (sql : Sql) where
  -- An UPDATE of one event changes that row alone, where it passes.
  pub find-update_event :
      (k : ℕ) (p : EventRecord → Bool) (f : EventRecord → EventRecord) (db : EventDb sql)
      → ((e : EventRecord) → (f e).id ≡ e.id)
      → (j : ℕ)
      → sql.find event_schema j (sql.update event_schema k p f db.events).0 ≡ (
          if j == k
          then updated p f (sql.find event_schema k db.events)
          else sql.find event_schema j db.events)
  find-update_event k p f db keeps j = sql.find-update event_schema k p f db.events j keeps

  -- The row that it returns, if any.
  pub first-update_event :
      (k : ℕ) (p : EventRecord → Bool) (f : EventRecord → EventRecord) (db : EventDb sql)
      → first (sql.update event_schema k p f db.events).1
        ≡ first (returned p f (sql.find event_schema k db.events))
  first-update_event k p f db = ap first (sql.update-returned event_schema k p f db.events)

  -- The event `e` has become `f e`, and no other event changed.
  abbrev pub Changed :
      ℕ → (EventRecord → EventRecord) → EventRecord → EventDb sql → EventDb sql → Type 0
  Changed k f e before after =
      (sql.find event_schema k before.events ≡ some e)
      × ((j : ℕ)
          → sql.find event_schema j after.events
            ≡ (if j == k then some (f e) else sql.find event_schema j before.events))

  abbrev pub EventsKept : EventDb sql → EventDb sql → Type 0
  EventsKept before after =
      (j : ℕ) → sql.find event_schema j after.events ≡ sql.find event_schema j before.events

  -- The row that was to be queued is in the outbox, and its id was answered.
  abbrev pub Queued : Option OutboxRecord → Option ℕ → EventDb sql → EventDb sql → Type 0
  Queued none row before after = (row ≡ none) × (after.outbox ≡ before.outbox)
  Queued (some r) row before after =
      (row ≡ some r.id) × (sql.create outbox_schema r before.outbox ≡ some after.outbox)

  pub Queued-of :
      (o : Option OutboxRecord) (row : Option ℕ) (before before' after : EventDb sql)
      → before.outbox ≡ before'.outbox
      → Queued o row before after
      → Queued o row before' after
  Queued-of none row before before' after e q = (q.0, q.1 ∙ e)
  Queued-of (some r) row before before' after e q = (q.0, rw (← e) q.1)

  -- The message was new, and is marked now.
  abbrev pub IsMarked : ℕ → EventDb sql → EventDb sql → Type 0
  IsMarked message_id before after =
      (sql.find processed_schema message_id before.processed_messages ≡ none)
      × (is_some (sql.find processed_schema message_id after.processed_messages) ≡ true)

  pub update_event-Changed :
      (k : ℕ) (p : EventRecord → Bool) (f : EventRecord → EventRecord) (db : EventDb sql)
      (e : EventRecord)
      → ((x : EventRecord) → (f x).id ≡ x.id)
      → sql.find event_schema k db.events ≡ some e
      → p e ≡ true
      → Changed k f e db (record db { events = (sql.update event_schema k p f db.events).0 })
  update_event-Changed k p f db e keeps found m =
      (found, λ j. ground (arith, find-update_event k p f db keeps j))

  pub update_event-EventsKept :
      (k : ℕ) (p : EventRecord → Bool) (f : EventRecord → EventRecord) (db : EventDb sql)
      → ((x : EventRecord) → (f x).id ≡ x.id)
      → holds p (sql.find event_schema k db.events) ≡ false
      → EventsKept db (record db { events = (sql.update event_schema k p f db.events).0 })
  update_event-EventsKept k p f db keeps m =
      λ j. ground (arith, find-update_event k p f db keeps j, ==_iff j k)

  pub mark_processed-taken :
      (now message_id : ℕ) (db : EventDb sql)
      → is_some (sql.find processed_schema message_id db.processed_messages) ≡ true
      → mark_processed sql now message_id db ≡ none
  unfolding mark_processed
  mark_processed-taken now message_id db h = ground (
    arith,
    create-taken_key sql processed_schema (record { message_id = message_id; processed_at = now })
        db.processed_messages,
  )

  pub mark_processed-fresh :
      (now message_id : ℕ) (db : EventDb sql)
      → sql.find processed_schema message_id db.processed_messages ≡ none
      → (rows : sql.Rows ProcessedMessage) × (mark_processed sql now message_id db
          ≡ some (record db { processed_messages = rows }))
        × (is_some (sql.find processed_schema message_id rows) ≡ true)
  unfolding mark_processed
  mark_processed-fresh now message_id db h =
      let row : ProcessedMessage = record { message_id = message_id; processed_at = now } in
      let (rows, e) = create_fresh sql processed_schema row db.processed_messages h refl in
      (
        rows,
        ground arith,
        ground
            (arith, find-create_self sql processed_schema row db.processed_messages {t' = rows} e),
      )

  pub queue_row_effect :
      (o : Option OutboxRecord) (answer : Option ℕ → ReserveSeatsResult) (db : EventDb sql)
      {a : ReserveSeatsResult} {db' : EventDb sql}
      → queue_row sql o answer db ≡ ok (a, db')
      → (row : Option ℕ) × (a ≡ answer row)
        × Queued o row db db'
        × (db'.events ≡ db.events)
        × (db'.processed_messages ≡ db.processed_messages)
  unfolding queue_row
  queue_row_effect none answer db h = (none, ground arith, ground arith, ground arith, ground arith)
  queue_row_effect (some r) answer db h =
      (some r.id, ground arith, ground arith, ground arith, ground arith)

  pub queue_row_throws :
      (o : Option OutboxRecord) (answer : Option ℕ → ReserveSeatsResult) (db : EventDb sql)
      {e : Thrown}
      → queue_row sql o answer db ≡ throws e
      → (r : OutboxRecord) × (o ≡ some r)
        × (e ≡ unique_violation)
        × (sql.create outbox_schema r db.outbox ≡ none)
  unfolding queue_row
  queue_row_throws none answer db h = absurd (ground arith)
  queue_row_throws (some r) answer db h = (r, refl, ground arith, ground arith)
