-- ===== src/Booking/Rows.antt =====
-- What one statement of the booking repository does to the rows of the database.
use event_booking_system_mic.Common.{
  ℕ, ◌≡◌, refl, ap, Bool, true, none, ◌==◌, is_some, is_empty, if◌then◌else◌, arith, some, eq_refl,
  ok,
}
use event_booking_system_mic.Contracts.{BookingStatus}
use event_booking_system_mic.Sql.{Sql, updated, returned, create_fresh}
use event_booking_system_mic.Booking.Types.{
  BookingRecord, BookingDb, ProcessedMessage, booking_schema, processed_schema,
}
use event_booking_system_mic.Booking.Repository.Settle.{set_status, mark_processed, move_booking}
use event_booking_system_mic.Booking.Repository.Create.{queue_event}
use event_booking_system_mic.Outbox.{OutboxInput, outbox_schema, new_row}

module _ (sql : Sql) where
  -- An `updateMany` on one id changes that row alone, where it passes.
  pub find-move_booking :
      (id : ℕ) (p : BookingRecord → Bool) (status : BookingStatus) (now : ℕ) (db : BookingDb sql)
      (j : ℕ)
      → sql.find booking_schema j (move_booking sql id p status now db).0.bookings ≡ (
          if j == id
          then updated p (set_status status now) (sql.find booking_schema id db.bookings)
          else sql.find booking_schema j db.bookings)
  unfolding move_booking
  find-move_booking id p status now db j =
      sql.find-update booking_schema id p (set_status status now) db.bookings j (λ r. refl)

  pub none_moved-move_booking :
      (id : ℕ) (p : BookingRecord → Bool) (status : BookingStatus) (now : ℕ) (db : BookingDb sql)
      → (move_booking sql id p status now db).1
        ≡ is_empty (returned p (set_status status now) (sql.find booking_schema id db.bookings))
  unfolding move_booking
  none_moved-move_booking id p status now db =
      ap is_empty (sql.update-returned booking_schema id p (set_status status now) db.bookings)

  pub rest-move_booking :
      (id : ℕ) (p : BookingRecord → Bool) (status : BookingStatus) (now : ℕ) (db : BookingDb sql)
      → let db' = (move_booking sql id p status now db).0 in
        (db'.idempotency_keys ≡ db.idempotency_keys)
        × (db'.processed_messages ≡ db.processed_messages)
        × (db'.outbox ≡ db.outbox)
  unfolding move_booking
  rest-move_booking id p status now db = (refl, refl, refl)

  -- A message is marked exactly when it was not, and nothing else is written.
  pub mark_processed-taken :
      (now message_id : ℕ) (db : BookingDb sql)
      → is_some (sql.find processed_schema message_id db.processed_messages) ≡ true
      → mark_processed sql now message_id db ≡ none
  unfolding mark_processed
  mark_processed-taken now message_id db h = ground (
    arith,
    sql.create-taken processed_schema (record { message_id = message_id; processed_at = now })
        db.processed_messages,
  )

  pub mark_processed-fresh :
      (now message_id : ℕ) (db : BookingDb sql)
      → sql.find processed_schema message_id db.processed_messages ≡ none
      → (rows : sql.Rows ProcessedMessage) × (mark_processed sql now message_id db
          ≡ some (record db { processed_messages = rows }))
  unfolding mark_processed
  mark_processed-fresh now message_id db h =
      let (rows, e) =
        create_fresh sql processed_schema (record { message_id = message_id; processed_at = now })
          db.processed_messages h refl in
      (rows, ground arith)

  pub mark_processed_effect :
      (now message_id : ℕ) (db : BookingDb sql) {db' : BookingDb sql}
      → mark_processed sql now message_id db ≡ some db'
      → (db'.bookings ≡ db.bookings)
        × (db'.idempotency_keys ≡ db.idempotency_keys)
        × (db'.outbox ≡ db.outbox)
        × (is_some (sql.find processed_schema message_id db'.processed_messages) ≡ true)
        × (sql.find processed_schema message_id db.processed_messages ≡ none)
  unfolding mark_processed
  mark_processed_effect now message_id db {db'} h = ground (
    arith,
    sql.create-taken processed_schema (record { message_id = message_id; processed_at = now })
        db.processed_messages,
    sql.find-create processed_schema (record { message_id = message_id; processed_at = now })
        db.processed_messages {t' = db'.processed_messages} message_id,
    eq_refl message_id,
  )

  -- A queued event adds its row to the outbox, or breaks a unique constraint of it.
  pub queue_event_effect :
      {A : Type 0} (now : ℕ) (o : OutboxInput) (a : A) (db : BookingDb sql) {b : A}
      {db' : BookingDb sql}
      → queue_event sql now o a db ≡ ok (b, db')
      → (b ≡ a)
        × (db'.bookings ≡ db.bookings)
        × (db'.idempotency_keys ≡ db.idempotency_keys)
        × (db'.processed_messages ≡ db.processed_messages)
        × (sql.create outbox_schema (new_row now o) db.outbox ≡ some db'.outbox)
  unfolding queue_event
  queue_event_effect now o a db h = ground arith
