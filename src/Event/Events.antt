-- ===== src/Event/Events.antt =====
-- The events themselves: `PrismaEventRepository`, services/event-service/src/modules/events/
-- event.repository.ts, and `EventsService`, event.service.ts beside it, which keeps a cache in front.
use Prim.Native.String.{String}
use mathlib.Core.Option
pub mod Update
pub mod Refusals
pub mod Coherence
pub mod Reads
pub mod Invalidation
use event_booking_system_mic.Common.{
  ◌-◌, ◌*◌, ◌==◌, leb, ℕ, Option, Bool, none, List, Outcome, some, ok, throws, map, first, true,
  if◌then◌else◌, is_some,
}
use event_booking_system_mic.Errors.{
  Thrown, app_error, capacity_below_reserved_seats, unique_violation,
}
use event_booking_system_mic.Event.Types.{EventRecord, EventDb, event_schema, EventDto, map_row}
use event_booking_system_mic.Sql.{Sql}
use event_booking_system_mic.Event.Cache.{EventCache}
use event_booking_system_mic.Contracts.{UuidText}

-- `CreateEventInput`
pub record CreateEventInput : Type 0 where
  pub id : ℕ
  pub title : String
  pub date : ℕ
  pub total_seats : ℕ
  pub available_seats : Option ℕ

-- `UpdateEventInput`
pub record UpdateEventInput : Type 0 where
  pub title : String
  pub date : ℕ
  pub total_seats : ℕ

pub data DeleteResult : Type 0 where
  deleted not_found has_reservations : DeleteResult

abbrev pub event_not_found : Thrown
event_not_found =
    app_error (record { code = "EVENT_NOT_FOUND"; message = "Event not found"; status_code = 404 })

abbrev pub capacity_below_reserved : Thrown
capacity_below_reserved = app_error (record {
  code = "CAPACITY_BELOW_RESERVED_SEATS";
  message = "Event capacity cannot be lower than the number of reserved seats";
  status_code = 409;
})

abbrev pub event_has_reservations : Thrown
event_has_reservations = app_error (record {
  code = "EVENT_HAS_RESERVATIONS";
  message = "Events with reserved seats cannot be deleted";
  status_code = 409;
})

-- The row that `event.create` inserts.
abbrev pub new_event : ℕ → CreateEventInput → EventRecord
new_event now input = record {
  id = input.id;
  title = input.title;
  date = input.date;
  total_seats = input.total_seats;
  available_seats = elim input.available_seats [ none ↦ input.total_seats | some n ↦ n ];
  created_at = now;
  updated_at = now;
}

-- The SET clause of `update`; the inner subtraction is exact where `available_seats` is within
-- `total_seats`, the outer one where `fits` holds.
unfoldable pub resize : ℕ → UpdateEventInput → EventRecord → EventRecord
resize now input e = record e {
  title = input.title;
  date = input.date;
  available_seats = input.total_seats - (e.total_seats - e.available_seats);
  total_seats = input.total_seats;
  updated_at = now;
}

-- The WHERE clause of `update`, and that of `delete`.
unfoldable pub fits : UpdateEventInput → EventRecord → Bool
fits input e = leb (e.total_seats - e.available_seats) input.total_seats

unfoldable pub is_unreserved : EventRecord → Bool
is_unreserved e = e.available_seats == e.total_seats

module _ (sql : Sql) where
  unfoldable pub create : ℕ → CreateEventInput → EventDb sql → Outcome Thrown EventDto × EventDb sql
  create now input db = elim (sql.create event_schema (new_event now input) db.events) [
    | none ↦ (throws unique_violation, db)
    | some events ↦ (ok (map_row (new_event now input)), record db { events = events })
  ]

  unfoldable pub find_by_id : ℕ → EventDb sql → Option EventDto
  find_by_id id db = Option.map map_row (sql.find event_schema id db.events)

  -- `list`; `page` is at least 1 (`paginationQuerySchema`).
  unfoldable pub list : ℕ → ℕ → EventDb sql → List EventDto
  list page page_size db = map map_row (
      sql.find_many event_schema (λ e. true) (λ e. e.created_at) ((page - 1) * page_size) page_size
        db.events)

  -- `update`: `none` is its `null`
  unfoldable pub update :
      ℕ → ℕ → UpdateEventInput → EventDb sql → Outcome Thrown (Option EventDto) × EventDb sql
  update now id input db =
      let (events, rows) = sql.update event_schema id (fits input) (resize now input) db.events in
      let db' : EventDb sql = record db { events = events } in
      elim (first rows) [
        | some row ↦ (ok (some (map_row row)), db')
        | none ↦ elim (sql.find event_schema id events) [
          | some _ ↦ (throws capacity_below_reserved_seats, db')
          | none ↦ (ok none, db')
        ]
      ]

  unfoldable pub delete : ℕ → EventDb sql → DeleteResult × EventDb sql
  delete id db =
      let (events, rows) = sql.delete event_schema id is_unreserved db.events in
      let db' : EventDb sql = record db { events = events } in
      elim (first rows) [
        | some _ ↦ (DeleteResult.deleted, db')
        | none ↦ (
          if is_some (sql.find event_schema id events)
              then DeleteResult.has_reservations
              else DeleteResult.not_found,
          db',
        )
      ]

  module _ (cache : EventCache) where
    -- What the service works on.
    pub record EventWorld : Type 0 where
      pub db : EventDb sql
      pub cached : cache.State

    -- `getCached`
    unfoldable pub get_cached : UuidText → cache.State → Option EventDto
    get_cached id s = elim (cache.get id s) [ ok found ↦ found | throws _ ↦ none ]

    -- `setCached`, with `cacheTtlSeconds`
    unfoldable pub set_cached : ℕ → UuidText → EventDto → cache.State → cache.State
    set_cached ttl id event s = elim (cache.set id event ttl s) [ ok s' ↦ s' | throws _ ↦ s ]

    -- `invalidateCached`
    unfoldable pub invalidate_cached : UuidText → cache.State → cache.State
    invalidate_cached id s = elim (cache.del id s) [ ok s' ↦ s' | throws _ ↦ s ]

    -- `createEvent`; the time and the id of `randomUUID` are arguments
    unfoldable pub create_event :
        ℕ → ℕ → UpdateEventInput → EventWorld → Outcome Thrown EventDto × EventWorld
    create_event now id input w =
        let (r, db) =
          create now
            (record {
              id = id;
              title = input.title;
              date = input.date;
              total_seats = input.total_seats;
              available_seats = none;
            })
            w.db in
        (r, record w { db = db })

    -- `listEvents`
    unfoldable pub list_events : ℕ → ℕ → EventWorld → List EventDto
    list_events page page_size w = list page page_size w.db

    -- `getEventById`
    unfoldable pub get_event_by_id :
        ℕ → UuidText → EventWorld → Outcome Thrown EventDto × EventWorld
    get_event_by_id ttl id w = elim (get_cached id w.cached) [
      | some event ↦ (ok event, w)
      | none ↦ elim (find_by_id id.value w.db) [
        | none ↦ (throws event_not_found, w)
        | some event ↦ (ok event, record w { cached = set_cached ttl id event w.cached })
      ]
    ]

    -- The `catch` of `updateEvent`.
    abbrev translate : Thrown → Thrown
    translate capacity_below_reserved_seats = capacity_below_reserved
    translate e = e

    -- `updateEvent`
    unfoldable pub update_event :
        ℕ → UuidText → UpdateEventInput → EventWorld → Outcome Thrown EventDto × EventWorld
    update_event now id input w =
        let (r, db) = update now id.value input w.db in
        let w' : EventWorld = record w { db = db } in
        elim r [
          | throws e ↦ (throws (translate e), w')
          | ok none ↦ (throws event_not_found, w')
          | ok (some updated) ↦ (ok updated, record w' { cached = invalidate_cached id w.cached })
        ]

    -- `deleteEvent`
    unfoldable pub delete_event : UuidText → EventWorld → Outcome Thrown (Unit {0}) × EventWorld
    delete_event id w =
        let (r, db) = delete id.value w.db in
        let w' : EventWorld = record w { db = db } in
        elim r [
          | DeleteResult.not_found ↦ (throws event_not_found, w')
          | DeleteResult.has_reservations ↦ (throws event_has_reservations, w')
          | DeleteResult.deleted ↦ (ok tt, record w' { cached = invalidate_cached id w.cached })
        ]
