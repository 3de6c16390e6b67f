-- ===== src/Booking/Service/Tests.antt =====
-- The booking service at concrete inputs: requests and messages that come twice.
use event_booking_system_mic.Common.{
  ◌≡◌, ◌∷◌, ◌↔◌, ℕ, ok, [], some, true, throws, none, ◌+◌, false, refl, arith,
}
use event_booking_system_mic.Booking.Service.{
  create_input, Texts, create_booking, FreshIds, request_fingerprint, reserve_seats_message,
  CreateRequest, ServiceWorld, drain,
}
use event_booking_system_mic.Booking.Types.{BookingDb, BookingDto, CreateBookingInput}
use event_booking_system_mic.Contracts.{
  MessageEnvelope, BookingEventFailure, BookingEventQuantity, canonical, FailureReason,
}
use event_booking_system_mic.Booking.Repository.Rows.{fingerprint_eq, map_row}
use event_booking_system_mic.Booking.Repository.Create.{
  create_booking_with_outbox, insert_booking, record_key, new_booking, queue_event, new_key,
  find_idempotency_record,
}
use event_booking_system_mic.Outbox.Dispatch.{Publisher}
use event_booking_system_mic.Sql.ListTables.{list_tables}
use event_booking_system_mic.Booking.Consumers.Redelivery.{handle_seats_reserved_twice}
use event_booking_system_mic.Booking.Service.Replay.{
  replayed, create_booking_replays, SameRequest, request_fingerprint_same,
}
use event_booking_system_mic.Errors.{unique_violation}
use event_booking_system_mic.Outbox.{new_row}
use event_booking_system_mic.Booking.Repository.Settle.{
  process_seats_reserved_message, mark_processed, confirm_booking, move_booking, is_pending_for,
}
use event_booking_system_mic.Booking.Idempotency.{create_booking_with_empty_key_twice}
use event_booking_system_mic.Booking.Consumers.{handle_seats_reserved, finish_reserved}

-- A bus that counts what it carried and accepts everything.
abbrev pub counting_bus : Publisher
counting_bus = record { Bus = ℕ; publish = λ topic m n. (ok tt, n + 1) }

-- Every UUID has a text of one code unit here.
abbrev pub short_texts : Texts
short_texts = record { uuid = λ a. a ∷ []; decimal = λ n. n ∷ [] }

abbrev pub empty_db : BookingDb list_tables
empty_db = record { bookings = []; idempotency_keys = []; processed_messages = []; outbox = [] }

abbrev pub world : BookingDb list_tables → ServiceWorld list_tables counting_bus
world db = record {
  db = db;
  bus = 0;
  dispatcher = record { interval = none; draining = false; worker_id = 5 };
  refuses_claim = λ now. none;
}

abbrev request : ℕ → CreateRequest
request spelling = record {
  user_id = canonical 7;
  event_id = record { value = 9; spelling = spelling };
  quantity = 2;
  idempotency_key = some 33;
}

abbrev pub ids : ℕ → FreshIds
ids n = record { booking_id = n; outbox_id = n + 1; message_id = n + 2 }

abbrev made : BookingDto × BookingDb list_tables
made = (
  map_row (new_booking 50 (create_input short_texts (ids 100) (request 0))),
  record {
    bookings = new_booking 50 (create_input short_texts (ids 100) (request 0)) ∷ [];
    idempotency_keys = new_key 50 (create_input short_texts (ids 100) (request 0)) 33 ∷ [];
    processed_messages = [];
    outbox = new_row 50 (reserve_seats_message 50 (ids 100) (request 0)) ∷ [];
  },
)

made_lem :
    insert_booking list_tables 50
      (create_input short_texts (ids 100) (request 0))
      (reserve_seats_message 50 (ids 100) (request 0))
      empty_db
    ≡ ok made
unfolding insert_booking record_key queue_event
made_lem = refl

create_booking_replays_example :
    let (first, w') =
      create_booking list_tables counting_bus short_texts 50
        (ids 100)
        (request 0)
        (world empty_db) in
    (first ≡ ok made.0)
    × (create_booking list_tables counting_bus short_texts 60 (ids 200) (request 1) w' ≡ (
      replayed list_tables counting_bus
          (request_fingerprint short_texts (request 0))
          made.0
          (request_fingerprint short_texts (request 1)),
      w',
    ))
create_booking_replays_example =
    create_booking_replays list_tables counting_bus short_texts 50 (ids 100) (request 0)
      (world empty_db) 33 {b = made.0} {db' = made.1} refl (unfold find_idempotency_record in refl)
      made_lem 60 (ids 200) (request 1) refl

request_fingerprint_same_example :
    (fingerprint_eq
        (request_fingerprint short_texts (request 0))
        (request_fingerprint short_texts (request 1))
      ≡ true)
    ↔ SameRequest (request 0) (request 1)
request_fingerprint_same_example =
    request_fingerprint_same short_texts 1 (λ a. refl) (λ a b e. ground arith)
      (λ a b e. ground arith) (request 0) (request 1)

abbrev empty_key : ℕ → CreateBookingInput
empty_key n = record (create_input short_texts (ids n) (request 0)) { idempotency_key = some 0 }

abbrev made_empty : BookingDb list_tables
made_empty = record empty_db {
  bookings = new_booking 50 (empty_key 100) ∷ [];
  outbox = new_row 50 (reserve_seats_message 50 (ids 100) (request 0)) ∷ [];
}

made_empty_lem :
    insert_booking list_tables 50
      (empty_key 100)
      (reserve_seats_message 50 (ids 100) (request 0))
      empty_db
    ≡ ok (map_row (new_booking 50 (empty_key 100)), made_empty)
unfolding insert_booking record_key queue_event
made_empty_lem = refl

create_booking_with_empty_key_twice_example :
    create_booking_with_outbox list_tables 60
      (empty_key 200)
      (reserve_seats_message 60 (ids 200) (request 0))
      made_empty
    ≡ (throws unique_violation, made_empty)
create_booking_with_empty_key_twice_example =
    create_booking_with_empty_key_twice list_tables 50 (empty_key 100)
      (reserve_seats_message 50 (ids 100) (request 0)) empty_db
      {b = map_row (new_booking 50 (empty_key 100))} {db' = made_empty} refl made_empty_lem 60
      (empty_key 200) (reserve_seats_message 60 (ids 200) (request 0)) refl

abbrev reserved : MessageEnvelope BookingEventQuantity
reserved = record {
  event_id = none;
  message_id = 300;
  correlation_id = 100;
  timestamp = 55;
  version = 1;
  payload = record { booking_id = 100; event_id = canonical 9; quantity = 2 };
}

abbrev unavailable : MessageEnvelope BookingEventFailure
unavailable = record {
  event_id = none;
  message_id = 301;
  correlation_id = 100;
  timestamp = 55;
  version = 1;
  payload = record {
    booking_id = 100;
    event_id = canonical 9;
    reason = FailureReason.insufficient_seats;
  };
}

handle_seats_reserved_twice_example :
    let w' =
      (handle_seats_reserved list_tables counting_bus 60 (ids 400) reserved (world made.1)).1 in
    handle_seats_reserved list_tables counting_bus 70 (ids 500) reserved w' ≡ (ok tt, w')
handle_seats_reserved_twice_example =
    handle_seats_reserved_twice list_tables counting_bus 60 (ids 400) reserved (world made.1)
      (unfold handle_seats_reserved finish_reserved process_seats_reserved_message mark_processed
          confirm_booking move_booking is_pending_for queue_event drain in
        refl)
      70 (ids 500) reserved refl
