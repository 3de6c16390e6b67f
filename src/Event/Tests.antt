-- ===== src/Event/Tests.antt =====
-- Events and their seats at concrete inputs.
use event_booking_system_mic.Common.{
  length, ◌≡◌, ◌∷◌, ◌≤◌, ℕ, List, throws, [], none, ok, refl, arith, some, ==_iff, inl,
}
use event_booking_system_mic.Event.Inventory.Deliveries.{
  Balanced, run, deliver, Delivery, run-Balanced,
}
use event_booking_system_mic.Event.Events.Update.{Resizes, Deletes, delete-Deletes, update-Resizes}
use event_booking_system_mic.Event.Events.{
  get_event_by_id, UpdateEventInput, EventWorld, delete, update, update_event, find_by_id,
}
use event_booking_system_mic.Event.Inventory.Service.{reserve_seats, FreshIds, InventoryWorld}
use event_booking_system_mic.Event.Types.{
  EventDb, ProcessReserveSeatsInput, EventRecord, ProcessReleaseSeatsInput, Number, map_row,
  ReserveSeatsResult,
}
use event_booking_system_mic.Event.Inventory.Reserve.Spec.{Reserves}
use event_booking_system_mic.Event.Inventory.Release.{Releases, process_release-Releases}
use event_booking_system_mic.Contracts.{MessageEnvelope, ReserveSeatsPayload, canonical, UuidText}
use event_booking_system_mic.Event.Events.Coherence.{update_event_stale}
use event_booking_system_mic.Event.Events.Invalidation.{update_event-IsCoherent}
use event_booking_system_mic.Event.Events.Reads.{
  IsCoherentAt, in_memory-IsCache, read, get_event_by_id_reads,
}
use event_booking_system_mic.Outbox.Dispatch.{Publisher, PublishFailure}
use event_booking_system_mic.Sql.ListTables.{list_tables}
use event_booking_system_mic.Event.Inventory.Repository.{
  process_release_seats_message, process_reserve_seats_message, take_seats, mark_processed,
  take_or_refuse, queue_row, has_seats,
}
use event_booking_system_mic.Event.Cache.{in_memory, lookup}
use event_booking_system_mic.Event.Inventory.Redelivery.{redelivery_harmless}
use event_booking_system_mic.Event.Inventory.Reserve.Contract.{process_reserve-Reserves}
use event_booking_system_mic.Event.Inventory.Service.Retry.{reserve_seats_retried}
use event_booking_system_mic.Event.RateLimiter.{consume_fallback, Entry}
use event_booking_system_mic.Event.RateLimiter.Window.{consume_fallback_bounded}
use event_booking_system_mic.Event.Events.Reads.{IsCoherentAt, in_memory-IsCache}

abbrev event : ℕ → EventRecord
event available = record {
  id = 9;
  title = "Concert";
  date = 1000;
  total_seats = 5;
  available_seats = available;
  created_at = 10;
  updated_at = 10;
}

-- Event 9 with 5 seats, of which 4 are available.
abbrev events : EventDb list_tables
events = record { events = event 4 ∷ []; processed_messages = []; outbox = [] }

abbrev reserve_of : ℕ → ℕ → ProcessReserveSeatsInput
reserve_of message_id n = record {
  message_id = message_id;
  event_id = canonical 9;
  quantity = Number.nat n;
  outbox_on_success = none;
  outbox_on_failure = none;
}

abbrev release_of : ℕ → ℕ → ProcessReleaseSeatsInput
release_of message_id n = record {
  message_id = message_id;
  event_id = canonical 9;
  quantity = Number.nat n;
}

-- A reservation that comes twice, one that finds too few seats, and a release.
abbrev deliveries : List Delivery
deliveries =
    Delivery.reserve 20 (reserve_of 30 3)
    ∷ Delivery.reserve 21 (reserve_of 30 3)
    ∷ Delivery.reserve 22 (reserve_of 31 2)
    ∷ Delivery.release 23 (release_of 32 3)
    ∷ []

run-Balanced_example : Balanced list_tables 9 (event 4) (run list_tables 9 deliveries events)
run-Balanced_example = run-Balanced list_tables 9 deliveries events (event 4) refl

process_reserve-Reserves_example :
    Reserves list_tables 20
      (reserve_of 30 3)
      events
      (process_reserve_seats_message list_tables 20 (reserve_of 30 3) events)
process_reserve-Reserves_example = process_reserve-Reserves list_tables 20 (reserve_of 30 3) events

process_release-Releases_example :
    Releases list_tables 20
      (release_of 32 1)
      events
      (process_release_seats_message list_tables 20 (release_of 32 1) events)
process_release-Releases_example = process_release-Releases list_tables 20 (release_of 32 1) events

abbrev marked_events : EventDb list_tables
marked_events = record events {
  processed_messages = record { message_id = 30; processed_at = 19 } ∷ [];
}

redelivery_harmless_example :
    deliver list_tables 9
      (Delivery.reserve 40 (reserve_of 30 1))
      (run list_tables 9 deliveries marked_events).db
    ≡ record { db = (run list_tables 9 deliveries marked_events).db; taken = 0; given = 0 }
redelivery_harmless_example =
    redelivery_harmless list_tables 9 (Delivery.reserve 40 (reserve_of 30 1)) deliveries
      marked_events refl

abbrev larger : UpdateEventInput
larger = record { title = "Concert"; date = 1000; total_seats = 8 }

update-Resizes_example : Resizes list_tables 9 larger events (update list_tables 50 9 larger events)
update-Resizes_example = update-Resizes list_tables 50 9 larger events (λ e h. ground arith)

delete-Deletes_example : Deletes list_tables 9 events (delete list_tables 9 events)
delete-Deletes_example = delete-Deletes list_tables 9 events

-- The event is cached under the lower-case spelling of its id.
abbrev cached : EventWorld list_tables in_memory
cached = record { db = events; cached = (canonical 9, map_row (event 4)) ∷ [] }

-- What is cached is what the database holds.
cached-IsCoherent : (id : UuidText) → IsCoherentAt list_tables in_memory cached id
unfolding find_by_id lookup
cached-IsCoherent id event h = ground (arith, h, ==_iff id.value 9, ==_iff id.spelling 0)

get_event_by_id_reads_example :
    let (r, w') = get_event_by_id list_tables in_memory 60 (canonical 9) cached in
    (r ≡ read list_tables in_memory (find_by_id list_tables 9 events))
    × ((other : UuidText) → IsCoherentAt list_tables in_memory w' other)
    × (w'.db ≡ events)
get_event_by_id_reads_example =
    get_event_by_id_reads list_tables in_memory 60 (canonical 9) cached in_memory-IsCache
      cached-IsCoherent

update_event-IsCoherent_example :
    IsCoherentAt list_tables in_memory
      (update_event list_tables in_memory 50 (canonical 9) larger cached).1
      (canonical 9)
update_event-IsCoherent_example =
    update_event-IsCoherent list_tables in_memory 50 (canonical 9) larger cached in_memory-IsCache
      cached-IsCoherent
      (λ other event v h. unfold lookup in ground (arith, h, v, ==_iff other.spelling 0))
      (canonical 9) (inl refl)

update_event_stale_example :
    (get_event_by_id list_tables in_memory 60
      (canonical 9)
      (update_event list_tables in_memory 50
        (record { value = 9; spelling = 1 })
        larger
        cached).1).0
    ≡ ok (map_row (event 4))
update_event_stale_example =
    update_event_stale list_tables 50 60 (record { value = 9; spelling = 1 }) (canonical 9) larger
      cached {event = map_row (event 4)} (unfold lookup in refl) refl

-- A bus that is down.
abbrev broken_bus : Publisher
broken_bus = record { Bus = ℕ; publish = λ topic m n. (throws PublishFailure.not_an_error, n) }

abbrev inventory : InventoryWorld list_tables in_memory broken_bus
inventory = record { db = events; cached = []; bus = 0 }

abbrev fresh : FreshIds
fresh = record {
  success_outbox_id = 70;
  success_message_id = 71;
  failure_outbox_id = 72;
  failure_message_id = 73;
}

abbrev reserve_message : MessageEnvelope ReserveSeatsPayload
reserve_message = record {
  event_id = none;
  message_id = 30;
  correlation_id = 1;
  timestamp = 5;
  version = 1;
  payload = record { booking_id = 1; event_id = canonical 9; user_id = canonical 7; quantity = 2 };
}

reserve_seats_retried_example :
    let w' =
      (reserve_seats list_tables in_memory broken_bus 20 fresh reserve_message inventory).1 in
    reserve_seats list_tables in_memory broken_bus 30 fresh reserve_message w' ≡ (ok tt, w')
reserve_seats_retried_example =
    reserve_seats_retried list_tables in_memory broken_bus 20 fresh reserve_message inventory
      {a = ReserveSeatsResult.reserved (map_row (take_seats 20 2 (event 4))) (some 70)}
      (unfold process_reserve_seats_message mark_processed take_or_refuse queue_row has_seats
          take_seats in
        refl)
      30 fresh reserve_message refl

-- Two keys are all that is kept, and both are in use.
abbrev entries : List Entry
entries =
    record { key = 1; count = 3; reset_at = 160 }
    ∷ record { key = 2; count = 1; reset_at = 170 }
    ∷ []

consume_fallback_bounded_example : length (consume_fallback 60 2 3 120 entries).1 ≤ 2
consume_fallback_bounded_example =
    consume_fallback_bounded 60 2 3 120 entries (omega arith) (omega arith)
