-- ===== src/Booking/Repository/Create.antt =====
-- `create`, `createBookingWithOutbox`, `storeIdempotencyKey` and the lookups of idempotency keys.
use mathlib.Core.Option
use event_booking_system_mic.Common.{
  ℕ, Option, none, some, Outcome, ok, throws, transaction, if◌then◌else◌,
}
use event_booking_system_mic.Errors.{Thrown, app_error, unique_violation}
use event_booking_system_mic.Sql.{Sql, upsert}
use event_booking_system_mic.Outbox.{OutboxInput, outbox_schema, new_row}
use event_booking_system_mic.Booking.Types.{
  BookingRecord, BookingDto, IdempotencyRow, BookingDb, CreateBookingInput, Text, booking_schema,
  idempotency_schema,
}
use event_booking_system_mic.Booking.Repository.Rows.{map_row, truthy_key, fingerprint_eq}

-- `BookingErrors.idempotencyKeyReused()`
abbrev pub idempotency_key_reused : Thrown
idempotency_key_reused = app_error (record {
  code = "IDEMPOTENCY_KEY_REUSED";
  message = "The Idempotency-Key was already used with a different booking request";
  status_code = 409;
})

-- The row that `booking.create` inserts.
abbrev pub new_booking : ℕ → CreateBookingInput → BookingRecord
new_booking now input = record {
  id = input.id;
  user_id = input.user_id;
  event_id = input.event_id;
  quantity = input.quantity;
  status = input.status;
  idempotency_key = input.idempotency_key;
  created_at = now;
  updated_at = now;
}

-- The row that `bookingIdempotencyKey.create` inserts.
abbrev pub new_key : ℕ → CreateBookingInput → ℕ → IdempotencyRow
new_key now input key = record {
  key = key;
  booking_id = input.id;
  request_fingerprint = input.request_fingerprint;
  response = map_row (new_booking now input);
  created_at = now;
}

module _ (sql : Sql) where
  -- `bookingOutboxEvent.create`, where it ends a transaction with the answer `a`
  unfoldable pub queue_event :
      {A : Type 0} → ℕ → OutboxInput → A → BookingDb sql → Outcome Thrown (A × BookingDb sql)
  queue_event now o a db = elim (sql.create outbox_schema (new_row now o) db.outbox) [
    | none ↦ throws unique_violation
    | some outbox ↦ ok (a, record db { outbox = outbox })
  ]

  -- `if (input.idempotencyKey) await …bookingIdempotencyKey.create(…)`
  unfoldable pub record_key : ℕ → CreateBookingInput → BookingDb sql → Option (BookingDb sql)
  record_key now input db = elim (truthy_key input.idempotency_key) [
    | none ↦ some db
    | some key ↦ elim (sql.create idempotency_schema (new_key now input key) db.idempotency_keys) [
      | none ↦ none
      | some keys ↦ some (record db { idempotency_keys = keys })
    ]
  ]

  -- The body of the transaction of `createBookingWithOutbox`.
  unfoldable pub insert_booking :
      ℕ
      → CreateBookingInput
      → OutboxInput
      → BookingDb sql
      → Outcome Thrown (BookingDto × BookingDb sql)
  insert_booking now input outbox db =
      elim (sql.create booking_schema (new_booking now input) db.bookings) [
        | none ↦ throws unique_violation
        | some bookings ↦ elim (record_key now input (record db { bookings = bookings })) [
          | none ↦ throws unique_violation
          | some db' ↦ queue_event now outbox (map_row (new_booking now input)) db'
        ]
      ]

  -- The `catch` of `createBookingWithOutbox`, at the key that the request gave.
  unfoldable pub replay : CreateBookingInput → ℕ → BookingDb sql → Outcome Thrown BookingDto
  replay input key db = elim (sql.find idempotency_schema key db.idempotency_keys) [
    | some existing ↦
        if fingerprint_eq existing.request_fingerprint input.request_fingerprint
        then ok existing.response
        else throws idempotency_key_reused
    | none ↦ elim (sql.find_by booking_schema key db.bookings) [
      | some booking ↦ ok (map_row booking)
      | none ↦ throws unique_violation
    ]
  ]

  abbrev pub recover :
      CreateBookingInput → Outcome Thrown BookingDto → BookingDb sql → Outcome Thrown BookingDto
  recover input (ok booking) db = ok booking
  recover input (throws unique_violation) db = elim (truthy_key input.idempotency_key) [
    | none ↦ throws unique_violation
    | some key ↦ replay input key db
  ]
  recover input (throws e) db = throws e

  unfoldable pub create_booking_with_outbox :
      ℕ
      → CreateBookingInput
      → OutboxInput
      → BookingDb sql
      → Outcome Thrown BookingDto × BookingDb sql
  create_booking_with_outbox now input outbox db =
      let (r, db') = transaction (insert_booking now input outbox) db in (recover input r db', db')

  -- `create`
  unfoldable pub create :
      ℕ → CreateBookingInput → BookingDb sql → Outcome Thrown BookingDto × BookingDb sql
  create now input db = elim (sql.create booking_schema (new_booking now input) db.bookings) [
    | none ↦ (throws unique_violation, db)
    | some bookings ↦ (ok (map_row (new_booking now input)), record db { bookings = bookings })
  ]

  -- `storeIdempotencyKey`
  unfoldable pub store_idempotency_key :
      ℕ → ℕ → ℕ → Text → BookingDto → BookingDb sql → Outcome Thrown (Unit {0}) × BookingDb sql
  store_idempotency_key now key booking_id fingerprint response db =
      elim (upsert sql idempotency_schema key
        (λ r. record r {
          booking_id = booking_id;
          request_fingerprint = fingerprint;
          response = response;
        })
        (record {
          key = key;
          booking_id = booking_id;
          request_fingerprint = fingerprint;
          response = response;
          created_at = now;
        })
        db.idempotency_keys) [
          | none ↦ (throws unique_violation, db)
          | some keys ↦ (ok tt, record db { idempotency_keys = keys })
        ]

  -- `findIdempotencyRecord`
  unfoldable pub find_idempotency_record : ℕ → BookingDb sql → Option IdempotencyRow
  find_idempotency_record key db = sql.find idempotency_schema key db.idempotency_keys

  -- `findIdempotencyResponse`
  unfoldable pub find_idempotency_response : ℕ → BookingDb sql → Option BookingDto
  find_idempotency_response key db =
      Option.map (λ r. r.response) (sql.find idempotency_schema key db.idempotency_keys)
