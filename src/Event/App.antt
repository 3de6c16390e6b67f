-- ===== src/Event/App.antt =====
-- The HTTP side of the event service: event.schema.ts, `EventController` of event.controller.ts and
-- `createEventRouter` of event.routes.ts in services/event-service/src/modules/events, and
-- `createEventApp` of services/event-service/src/app.ts. The headers of the rate limiter are left out
-- of the answers.
mod Tests
pub mod Refusals
use Prim.Native.String.{String}
use mathlib.Core.Option
use event_booking_system_mic.Event.Events.{
  delete_event, update_event, UpdateEventInput, list_events, create_event, get_event_by_id,
}
use event_booking_system_mic.Common.{
  ◌∷◌, List, Option, Outcome, throws, Bool, if◌then◌else◌, ok, [], ℕ, some, none,
}
use event_booking_system_mic.Event.Events.{EventWorld}
use event_booking_system_mic.Event.Types.{EventDto}
use event_booking_system_mic.Http.{
  failed, Express, Handler, Request, Reply, send_no_content, send_json, Response, or_else, Route,
  run_router, serve, not_found_handler,
}
use event_booking_system_mic.Http.Zod.{
  Zod, Parsed, keys, id_param_schema, both, parse, pagination_query_schema,
}
use event_booking_system_mic.Contracts.Json.{Json, property_of}
use event_booking_system_mic.Sql.{Sql}
use event_booking_system_mic.Event.RateLimiter.Middleware.{
  TooManyRequests, Redis, RateLimiterOptions, LimiterState, rate_limit,
}
use event_booking_system_mic.Event.Cache.{EventCache}
use event_booking_system_mic.Contracts.{UuidText}
use event_booking_system_mic.Errors.{Thrown, plain_error}
use event_booking_system_mic.Http.Ready.{Body, entity, service_routes}

-- What an answer of the service carries.
pub data EventAnswer : Type 0 where
  event : EventDto → EventAnswer
  events : List EventDto → EventAnswer
  too_many : TooManyRequests → EventAnswer

-- `createEventSchema` and `updateEventSchema`, which are the same
unfoldable pub event_body_schema : Zod → Option Json → Parsed UpdateEventInput
event_body_schema zod body = keys zod body (λ ps.
    elim (both (zod.trimmed "Title is required" (property_of "title" ps)) (
      both (zod.datetime "Date must be valid" (property_of "date" ps))
        (zod.positive_int "Total seats must be greater than zero" (property_of "totalSeats" ps)))) [
          | throws ms ↦ throws ms
          | ok (title, (date, total_seats)) ↦
              ok (record { title = title; date = date; total_seats = total_seats })
        ])

-- `eventIdParamSchema`
unfoldable pub event_id_param_schema : Zod → Json → Parsed UuidText
event_id_param_schema zod params = id_param_schema zod "id" "Invalid event id" params

module _ (express : Express) (zod : Zod) (sql : Sql) (cache : EventCache) (redis : Redis) where
  -- What the requests of the app work on; the checks of `/health/ready` and what the registry
  -- prints are given.
  pub record EventAppWorld : Type 0 where
    pub service : EventWorld sql cache
    pub limiter : LimiterState redis
    pub select_one : Outcome Thrown (Unit {0})
    pub ping : Outcome Thrown (Unit {0})
    pub kafka_ready : Bool
    pub metrics : String

  abbrev pub EventReply : Type 0
  EventReply = Outcome Thrown (Reply (Body EventAnswer)) × EventAppWorld

  -- What the controller answers, with a status, once the service is done.
  abbrev pub answered :
      ℕ → EventAppWorld → Outcome Thrown EventDto × EventWorld sql cache → EventReply
  answered status w (throws e, service) = (throws e, record w { service = service })
  answered status w (ok dto, service) =
      (ok (send_json status (entity (EventAnswer.event dto))), record w { service = service })

  -- The same of `deleteEvent`.
  abbrev pub answered_delete :
      EventAppWorld → Outcome Thrown (Unit {0}) × EventWorld sql cache → EventReply
  answered_delete w (throws e, service) = (throws e, record w { service = service })
  answered_delete w (ok _, service) = (ok send_no_content, record w { service = service })

  -- `createEvent` of the controller
  unfoldable pub post_event : ℕ → ℕ → Handler EventAppWorld (Body EventAnswer)
  post_event now id call w = elim (parse (event_body_schema zod call.body)) [
    | throws e ↦ (throws e, w)
    | ok input ↦ answered 201 w (create_event sql cache now id input w.service)
  ]

  -- `listEvents` of the controller
  unfoldable pub get_events : Handler EventAppWorld (Body EventAnswer)
  get_events call w = elim (parse (pagination_query_schema zod call.request.query)) [
    | throws e ↦ (throws e, w)
    | ok p ↦ (
      ok (
          send_json 200
            (entity (EventAnswer.events (list_events sql cache p.page p.page_size w.service)))),
      w,
    )
  ]

  -- `getEventById` of the controller
  unfoldable pub get_event : ℕ → Handler EventAppWorld (Body EventAnswer)
  get_event ttl call w = elim (parse (event_id_param_schema zod call.params)) [
    | throws e ↦ (throws e, w)
    | ok id ↦ answered 200 w (get_event_by_id sql cache ttl id w.service)
  ]

  -- `updateEvent` of the controller
  unfoldable pub put_event : ℕ → Handler EventAppWorld (Body EventAnswer)
  put_event now call w = elim (parse (event_id_param_schema zod call.params)) [
    | throws e ↦ (throws e, w)
    | ok id ↦ elim (parse (event_body_schema zod call.body)) [
      | throws e ↦ (throws e, w)
      | ok input ↦ answered 200 w (update_event sql cache now id input w.service)
    ]
  ]

  -- `deleteEvent` of the controller
  unfoldable pub delete_event_handler : Handler EventAppWorld (Body EventAnswer)
  delete_event_handler call w = elim (parse (event_id_param_schema zod call.params)) [
    | throws e ↦ (throws e, w)
    | ok id ↦ answered_delete w (delete_event sql cache id w.service)
  ]

  -- `createEventRouter`, with `cacheTtlSeconds`
  abbrev pub event_router : ℕ → ℕ → ℕ → List (Route EventAppWorld (Body EventAnswer))
  event_router ttl now id =
      record { method = "POST"; pattern = "/"; handler = post_event now id }
      ∷ record { method = "GET"; pattern = "/"; handler = get_events }
      ∷ record { method = "GET"; pattern = "/:id"; handler = get_event ttl }
      ∷ record { method = "PUT"; pattern = "/:id"; handler = put_event now }
      ∷ record { method = "DELETE"; pattern = "/:id"; handler = delete_event_handler }
      ∷ []

  -- The checks of `/health/ready`.
  abbrev pub event_checks : EventAppWorld → List (String × Outcome Thrown (Unit {0}))
  event_checks w =
      ("database", w.select_one)
      ∷ ("redis", w.ping)
      ∷ (
        "kafka",
        if w.kafka_ready then ok tt else throws (plain_error "Kafka consumer is not running"),
      )
      ∷ []

  -- The router behind the rate limiter, on the rest of a path; the limiter has counted the request
  -- also where no route fits.
  unfoldable pub limited_router :
      RateLimiterOptions
      → ℕ
      → ℕ
      → List (Route EventAppWorld (Body EventAnswer))
      → String
      → Request
      → Option Json
      → EventAppWorld
      → EventReply
  limited_router options key seconds routes path req body w =
      let ((_, rejection), limiter) = rate_limit redis options key seconds w.limiter in
      let w' : EventAppWorld = record w { limiter = limiter } in
      elim rejection [
        | some too ↦ (ok (send_json 429 (entity (EventAnswer.too_many too))), w')
        | none ↦ elim (run_router express routes path req body w') [
          | some answer ↦ answer
          | none ↦ (ok (failed (not_found_handler req)), w')
        ]
      ]

  -- The routes of the app; `key` is the limiter's key for the request and `seconds` the time.
  unfoldable pub event_routes :
      RateLimiterOptions
      → (Request → ℕ)
      → ℕ
      → ℕ
      → ℕ
      → ℕ
      → Request
      → Option Json
      → EventAppWorld
      → Option EventReply
  event_routes options key seconds ttl now id req body w =
      or_else
        (run_router express (service_routes event_checks (λ w. w.metrics)) req.path req body w)
        (Option.map
          (λ path.
            limited_router options (key req) seconds (event_router ttl now id) path req body w)
          (express.strip "/events" req.path))

  -- `createEventApp`
  unfoldable pub event_app :
      RateLimiterOptions
      → (Request → ℕ)
      → ℕ
      → ℕ
      → ℕ
      → ℕ
      → ℕ
      → Request
      → EventAppWorld
      → Response (Body EventAnswer) × EventAppWorld
  event_app options key seconds ttl now id fresh req w =
      serve express (event_routes options key seconds ttl now id) fresh req w
