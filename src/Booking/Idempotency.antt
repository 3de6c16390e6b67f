-- ===== src/Booking/Idempotency.antt =====
-- Requests that repeat an idempotency key.
use event_booking_system_mic.Common.{
  ◌≡◌, ℕ, some, ok, if◌then◌else◌, throws, is_some, true, arith, ◌⊎◌, eq_refl,
}
use event_booking_system_mic.Sql.{Sql, find-create_self}
use event_booking_system_mic.Booking.Repository.Create.{
  create_booking_with_outbox, insert_booking, record_key, replay, queue_event, new_key, new_booking,
  idempotency_key_reused, find_idempotency_record,
}
use event_booking_system_mic.Booking.Types.{
  CreateBookingInput, BookingDb, BookingDto, idempotency_schema, booking_schema,
}
use event_booking_system_mic.Outbox.{OutboxInput}
use event_booking_system_mic.Booking.Repository.Rows.{truthy_key, map_row, fingerprint_eq}
use event_booking_system_mic.Errors.{unique_violation}

module _ (sql : Sql) where
  insert_booking_effect :
      (now : ℕ) (input : CreateBookingInput) (o : OutboxInput) (db : BookingDb sql) {b : BookingDto}
      {db' : BookingDb sql}
      → insert_booking sql now input o db ≡ ok (b, db')
      → (b ≡ map_row (new_booking now input))
        × (sql.create booking_schema (new_booking now input) db.bookings ≡ some db'.bookings)
        × (record_key sql now input (record db { bookings = db'.bookings })
            ≡ some (record db { bookings = db'.bookings; idempotency_keys = db'.idempotency_keys }))
  unfolding insert_booking queue_event record_key
  insert_booking_effect now input o db h = ground arith

  record_key_effect :
      (now : ℕ) (input : CreateBookingInput) (db db' : BookingDb sql) (k : ℕ)
      → truthy_key input.idempotency_key ≡ some k
      → record_key sql now input db ≡ some db'
      → sql.create idempotency_schema (new_key now input k) db.idempotency_keys
        ≡ some db'.idempotency_keys
  unfolding record_key
  record_key_effect now input db db' k t h = ground (arith, t, h)

  -- A booking that was made with a key has recorded it.
  pub insert_booking-recorded :
      (now k : ℕ) (input : CreateBookingInput) (o : OutboxInput) (db : BookingDb sql)
      {b : BookingDto} {db' : BookingDb sql}
      → truthy_key input.idempotency_key ≡ some k
      → insert_booking sql now input o db ≡ ok (b, db')
      → (b ≡ map_row (new_booking now input))
        × (find_idempotency_record sql k db' ≡ some (new_key now input k))
  unfolding find_idempotency_record
  insert_booking-recorded now k input o db {b} {db'} t h =
      let (e, c, r) = insert_booking_effect now input o db h in
      let made =
        record_key_effect now input (record db { bookings = db'.bookings })
          (record db { bookings = db'.bookings; idempotency_keys = db'.idempotency_keys }) k t r in
      (
        e,
        (find-create_self sql idempotency_schema (new_key now input k) db.idempotency_keys made).1,
      )

  insert_booking-taken :
      (now k : ℕ) (input : CreateBookingInput) (o : OutboxInput) (db : BookingDb sql)
      → input.idempotency_key ≡ some k
      → is_some (sql.find_by booking_schema k db.bookings) ≡ true
      → insert_booking sql now input o db ≡ throws unique_violation
  unfolding insert_booking
  insert_booking-taken now k input o db e h =
      ground (arith, sql.create-taken booking_schema (new_booking now input) db.bookings)

  create-taken_key :
      (now k : ℕ) (input : CreateBookingInput) (o : OutboxInput) (db : BookingDb sql)
      → truthy_key input.idempotency_key ≡ some k
      → is_some (sql.find_by booking_schema k db.bookings) ≡ true
      → create_booking_with_outbox sql now input o db ≡ (replay sql input k db, db)
  unfolding create_booking_with_outbox
  create-taken_key now k input o db e h =
      ground (arith, insert_booking-taken now k input o db (ground (arith, e)) h)

  -- On the database that an insert with a key has left, a request with the same key is answered
  -- with the booking of the first if its fingerprint is the same and is refused as a reused key
  -- otherwise, and it writes nothing, with any new identifiers, time and event.
  pub create_booking_with_outbox_twice :
      (now k : ℕ) (input : CreateBookingInput) (o : OutboxInput) (db : BookingDb sql)
      {b : BookingDto} {db' : BookingDb sql}
      → truthy_key input.idempotency_key ≡ some k
      → insert_booking sql now input o db ≡ ok (b, db')
      → (now' : ℕ) (input' : CreateBookingInput) (o' : OutboxInput)
      → truthy_key input'.idempotency_key ≡ some k
      → create_booking_with_outbox sql now' input' o' db' ≡ (
        (if fingerprint_eq input.request_fingerprint input'.request_fingerprint
            then ok b
            else throws idempotency_key_reused),
        db',
      )
  unfolding replay
  create_booking_with_outbox_twice now k input o db {b} {db'} t h now' input' o' t' =
      let (e, c, r) = insert_booking_effect now input o db h in
      let made =
        record_key_effect now input (record db { bookings = db'.bookings })
          (record db { bookings = db'.bookings; idempotency_keys = db'.idempotency_keys }) k t r in
      let kept =
        (find-create_self sql idempotency_schema (new_key now input k) db.idempotency_keys
          made).1 in
      let taken = sql.find_by-create booking_schema (new_booking now input) db.bookings k c in
      let again = create-taken_key now' k input' o' db' t' (ground (arith, t, taken, eq_refl k)) in
      ground (arith, again, kept, e)

  -- On the database that an insert with the empty text as its key has left, another request with
  -- the empty text as its key fails with the broken unique constraint, and nothing is written.
  pub create_booking_with_empty_key_twice :
      (now : ℕ) (input : CreateBookingInput) (o : OutboxInput) (db : BookingDb sql) {b : BookingDto}
      {db' : BookingDb sql}
      → input.idempotency_key ≡ some 0
      → insert_booking sql now input o db ≡ ok (b, db')
      → (now' : ℕ) (input' : CreateBookingInput) (o' : OutboxInput)
      → input'.idempotency_key ≡ some 0
      → create_booking_with_outbox sql now' input' o' db' ≡ (throws unique_violation, db')
  unfolding create_booking_with_outbox
  create_booking_with_empty_key_twice now input o db {b} {db'} t h now' input' o' t' =
      let (e, c, r) = insert_booking_effect now input o db h in
      let taken = sql.find_by-create booking_schema (new_booking now input) db.bookings 0 c in
      ground (arith, insert_booking-taken now' 0 input' o' db' t' (ground (arith, t, taken)), t')

  -- Whatever a request meets, it has made its booking or has written nothing.
  pub create_booking_with_outbox_atomic :
      (now : ℕ) (input : CreateBookingInput) (o : OutboxInput) (db : BookingDb sql)
      → let (r, db') = create_booking_with_outbox sql now input o db in
        ((r ≡ ok (map_row (new_booking now input)))
          × (insert_booking sql now input o db ≡ ok (map_row (new_booking now input), db')))
        ⊎ (db' ≡ db)
  unfolding create_booking_with_outbox insert_booking queue_event
  create_booking_with_outbox_atomic now input o db = ground arith
