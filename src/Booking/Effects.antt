-- ===== src/Booking/Effects.antt =====
-- What a transaction that settles a booking has done to the database: the words in which the
-- contracts of the three such transactions are stated.
use event_booking_system_mic.Sql.{Sql, holds}
use event_booking_system_mic.Common.{
  ℕ, Bool, is_some, ◌≡◌, false, throws, none, some, ◌||◌, true, if◌then◌else◌, ◌==◌, ok, arith,
  ==_iff, ◌∙◌,
}
use event_booking_system_mic.Booking.Repository.Create.{queue_event}
use event_booking_system_mic.Booking.Types.{
  BookingDb, BookingRecord, booking_schema, processed_schema, ProcessedMessage,
}
use event_booking_system_mic.Outbox.{OutboxInput, outbox_schema, new_row}
use event_booking_system_mic.Contracts.{BookingStatus}
use event_booking_system_mic.Errors.{Thrown, unique_violation}
use event_booking_system_mic.Booking.Repository.Settle.{move_booking, set_status, mark_processed}
use event_booking_system_mic.Booking.Rows.{
  find-move_booking, rest-move_booking, queue_event_effect, mark_processed_effect,
}

module _ (sql : Sql) where
  -- The booking `b` has got a new status, one event is queued, and nothing else of these changed.
  pub record Settled (id : ℕ) (status : BookingStatus) (now : ℕ) (o : OutboxInput)
      (before after : BookingDb sql) (b : BookingRecord) : Type 0 where
    pub found : sql.find booking_schema id before.bookings ≡ some b
    pub moved :
        (j : ℕ)
        → sql.find booking_schema j after.bookings ≡ (
            if j == id
            then some (set_status status now b)
            else sql.find booking_schema j before.bookings)
    pub queued : sql.create outbox_schema (new_row now o) before.outbox ≡ some after.outbox
    pub keys_kept : after.idempotency_keys ≡ before.idempotency_keys

  -- No booking, event or idempotency key was written.
  pub record Untouched (before after : BookingDb sql) : Type 0 where
    pub bookings_kept :
        (j : ℕ)
        → sql.find booking_schema j after.bookings ≡ sql.find booking_schema j before.bookings
    pub outbox_kept : after.outbox ≡ before.outbox
    pub keys_kept : after.idempotency_keys ≡ before.idempotency_keys

  -- Whether the outbox holds the id or the message of the event already.
  abbrev pub is_queued : OutboxInput → BookingDb sql → Bool
  is_queued o db =
      is_some (sql.find outbox_schema o.id db.outbox)
      || is_some (sql.find_by outbox_schema o.message.message_id db.outbox)

  -- The message was new, and is marked now.
  abbrev pub IsMarked : ℕ → BookingDb sql → BookingDb sql → Type 0
  IsMarked message_id before after =
      (sql.find processed_schema message_id before.processed_messages ≡ none)
      × (is_some (sql.find processed_schema message_id after.processed_messages) ≡ true)

  -- A move that a WHERE clause refuses changes no row.
  pub move_booking-Untouched :
      (id : ℕ) (p : BookingRecord → Bool) (status : BookingStatus) (now : ℕ) (db : BookingDb sql)
      → holds p (sql.find booking_schema id db.bookings) ≡ false
      → Untouched db (move_booking sql id p status now db).0
  move_booking-Untouched id p status now db h = record {
    bookings_kept = λ j. ground (arith, find-move_booking sql id p status now db j, ==_iff j id);
    outbox_kept = (rest-move_booking sql id p status now db).2;
    keys_kept = (rest-move_booking sql id p status now db).0;
  }

  -- A move that passes, followed by the event.
  pub queue_event-Settled :
      {A : Type 0} (id : ℕ) (p : BookingRecord → Bool) (status : BookingStatus) (now : ℕ)
      (o : OutboxInput) (a : A) (db after : BookingDb sql) (b : BookingRecord) {a' : A}
      → sql.find booking_schema id db.bookings ≡ some b
      → p b ≡ true
      → queue_event sql now o a (move_booking sql id p status now db).0 ≡ ok (a', after)
      → Settled id status now o db after b
  queue_event-Settled id p status now o a db after b {a'} e m h =
      let moved = (move_booking sql id p status now db).0 in
      let rest = rest-move_booking sql id p status now db in
      let (_, bookings, keys, _, created) =
        queue_event_effect sql now o a moved {b = a'} {db' = after} h in
      record {
        found = e;
        moved = λ j. ground (arith, bookings, find-move_booking sql id p status now db j);
        queued = rw rest.2 at created;
        keys_kept = keys ∙ rest.0;
      }

  -- An event that cannot be queued is in the outbox already.
  pub queue_event_throws :
      {A : Type 0} (now : ℕ) (o : OutboxInput) (a : A) (db : BookingDb sql) {e : Thrown}
      → queue_event sql now o a db ≡ throws e
      → (e ≡ unique_violation) × (is_queued o db ≡ true)
  unfolding queue_event
  queue_event_throws now o a db h =
      ground (arith, sql.create-taken outbox_schema (new_row now o) db.outbox)

  -- The mark of a message is none of what these predicates speak of.
  pub Settled-of_marked :
      (id : ℕ) (status : BookingStatus) (now : ℕ) (o : OutboxInput) (db after : BookingDb sql)
      (b : BookingRecord) (rows : sql.Rows ProcessedMessage)
      → Settled id status now o (record db { processed_messages = rows }) after b
      → Settled id status now o db after b
  Settled-of_marked id status now o db after b rows s = record {
    found = s.found;
    moved = s.moved;
    queued = s.queued;
    keys_kept = s.keys_kept;
  }

  pub Untouched-of_marked :
      (db after : BookingDb sql) (rows : sql.Rows ProcessedMessage)
      → Untouched (record db { processed_messages = rows }) after
      → Untouched db after
  Untouched-of_marked db after rows u = record {
    bookings_kept = u.bookings_kept;
    outbox_kept = u.outbox_kept;
    keys_kept = u.keys_kept;
  }

  pub mark_processed-IsMarked :
      (now message_id : ℕ) (db after : BookingDb sql) (rows : sql.Rows ProcessedMessage)
      → mark_processed sql now message_id db ≡ some (record db { processed_messages = rows })
      → after.processed_messages ≡ rows
      → IsMarked message_id db after
  mark_processed-IsMarked now message_id db after rows h e =
      let (_, _, _, there, fresh) =
        mark_processed_effect sql now message_id db {db' = record db { processed_messages = rows }}
          h in
      (fresh, rw e there)
