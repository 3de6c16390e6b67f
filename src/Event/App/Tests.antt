-- ===== src/Event/App/Tests.antt =====
-- The event service's app, its rate limiter and its dispatcher at concrete inputs.
use event_booking_system_mic.Common.{refl, ◌≡◌, ℕ, ok, ◌∷◌, ◌+◌, [], none, false, true, arith}
use event_booking_system_mic.Contracts.Json.{
  object, end, property, string, Json, Number, property_of,
}
use event_booking_system_mic.Http.{request_id_middleware, serve, run_router, find_route}
use event_booking_system_mic.Event.RateLimiter.{
  bump, expire, find_entry, is_rejected, consume_fallback,
}
use event_booking_system_mic.Outbox.Dispatch.{Publisher, Dispatcher, dispatch_pending}
use event_booking_system_mic.Event.Dispatcher.{dispatch_events, DispatchWorld, unknown_failure}
use event_booking_system_mic.Event.RateLimiter.Middleware.{
  RateLimiterOptions, Redis, rate_limit, consume, respond, fall_back,
}
use event_booking_system_mic.Event.App.{
  event_app, EventAppWorld, event_routes, limited_router, post_event, event_body_schema,
}
use event_booking_system_mic.Outbox.{OutboxRecord, new_row}
use event_booking_system_mic.Event.Types.{EventDb}
use event_booking_system_mic.Sql.ListTables.{list_tables}
use event_booking_system_mic.Http.Samples.{plain_express, plain_zod, plain_request}
use event_booking_system_mic.Contracts.{Topic, Payload, canonical}
use event_booking_system_mic.Event.Cache.{in_memory}
use event_booking_system_mic.Event.Dispatcher.Equivalence.{
  outbox_of, with_outbox, dispatch_events-with_outbox,
}
use event_booking_system_mic.Http.Zod.{both}
use event_booking_system_mic.Event.App.Refusals.{Same, event_app_refused}
use event_booking_system_mic.Event.RateLimiter.Admission.{admitted, admitted_exactly, asked, others}

-- A Redis that is never open.
abbrev closed : Redis
closed = record {
  Store = ℕ;
  incr = λ k s. (s + 1, s + 1);
  expire = λ k n s. s;
  ttl = λ k s. Number.fractional;
  is_open = λ s. false;
  refuses = λ s. none;
}

-- A body without a date.
abbrev body : Json
body = object (property "title" (string "Concert") end)

abbrev options : RateLimiterOptions
options = record { window_seconds = 60; max_requests = 2; max_fallback_entries = 10 }

abbrev db : EventDb list_tables
db = record { events = []; processed_messages = []; outbox = [] }

abbrev app_world : EventAppWorld (plain_express body) plain_zod list_tables in_memory closed
app_world = record {
  service = record { db = db; cached = [] };
  limiter = record {
    client = none;
    in_memory_store = record { key = 4; count = 2; reset_at = 130 } ∷ [];
  };
  select_one = ok tt;
  ping = ok tt;
  kafka_ready = true;
  metrics = "";
}

-- The third request of a window, which is answered 429.
event_app_refused_example :
    Same
      (plain_express body)
      plain_zod
      list_tables
      in_memory
      closed
      app_world
      (event_app
        (plain_express body)
        plain_zod
        list_tables
        in_memory
        closed
        options
        (λ r. 4)
        100
        120
        50
        9
        77
        (plain_request "POST" "/events" "{…}" none)
        app_world).1
unfolding event_app serve event_routes run_router find_route limited_router rate_limit consume
    respond post_event event_body_schema both property_of request_id_middleware is_rejected
    fall_back consume_fallback find_entry expire bump
event_app_refused_example =
    event_app_refused (plain_express body) plain_zod list_tables in_memory closed options (λ r. 4)
      100 120 50 9 77 (plain_request "POST" "/events" "{…}" none) app_world refl

-- Two of four requests are let through, with a request of another key in between.
admitted_exactly_example :
    admitted 60 10 2 4 ((4, 100) ∷ (4, 101) ∷ (7, 102) ∷ (4, 120) ∷ (4, 159) ∷ []) [] ≡ 2
unfolding expire find_entry asked others
admitted_exactly_example =
    admitted_exactly 60 10 2 4 100 ((4, 101) ∷ (7, 102) ∷ (4, 120) ∷ (4, 159) ∷ []) [] refl
      (omega arith, (omega arith, (omega arith, (omega arith, tt)))) (omega arith)

-- A bus that takes everything.
abbrev open_bus : Publisher
open_bus = record { Bus = ℕ; publish = λ topic m n. (ok tt, n + 1) }

abbrev queued : OutboxRecord
queued = new_row 100 (record {
  id = 1;
  topic = Topic.seats_reserved;
  message = record {
    event_id = none;
    message_id = 3;
    correlation_id = 1;
    timestamp = 50;
    version = 1;
    payload =
        Payload.seats_reserved (record { booking_id = 1; event_id = canonical 9; quantity = 2 });
  };
})

abbrev idle : Dispatcher list_tables open_bus
idle = record { interval = none; draining = false; worker_id = 5 }

abbrev dispatch_world : DispatchWorld list_tables open_bus
dispatch_world = record { db = record db { outbox = queued ∷ [] }; bus = 0 }

dispatch_events-with_outbox_example :
    dispatch_events list_tables open_bus 25 200 idle dispatch_world ≡ (
      let (d, o) =
        dispatch_pending list_tables open_bus unknown_failure 25 200 idle
          (outbox_of list_tables open_bus dispatch_world) in
      (d, with_outbox list_tables open_bus dispatch_world.db o))
dispatch_events-with_outbox_example =
    dispatch_events-with_outbox list_tables open_bus 25 200 idle dispatch_world
