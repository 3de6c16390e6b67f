-- ===== src/Booking/App/Tests.antt =====
-- The booking service's app at concrete inputs.
use event_booking_system_mic.Common.{◌≡◌, ℕ, some, refl, ok, true}
use event_booking_system_mic.Contracts.Json.{
  object, end, property, number, Json, Number, property_of,
}
use event_booking_system_mic.Http.{
  request_id_middleware, Request, serve, run_router, run_mounted, find_route,
}
use event_booking_system_mic.Booking.Service.Tests.{counting_bus, short_texts, empty_db, world, ids}
use event_booking_system_mic.Booking.Service.{CreateRequest, create_booking, make_booking, drain}
use event_booking_system_mic.Booking.App.{
  create_booking_schema, booking_app, BookingWorld, booking_routes, post_booking,
}
use event_booking_system_mic.Contracts.{canonical}
use event_booking_system_mic.Http.Zod.{both}
use event_booking_system_mic.Http.Samples.{plain_request, plain_express, plain_zod}
use event_booking_system_mic.Booking.App.Replay.{IsBookingPost, booking_app_replays}
use event_booking_system_mic.Sql.ListTables.{list_tables}
use event_booking_system_mic.Booking.App.Refusals.{Same, booking_app_refused}
use event_booking_system_mic.Booking.Repository.Create.{
  create_booking_with_outbox, insert_booking, record_key, queue_event, find_idempotency_record,
}

-- Two seats of event 9 for user 7.
abbrev body : ℕ → Json
body quantity = object (
    property "userId" (number (Number.nat 7)) (
      property "eventId" (number (Number.nat 9))
        (property "quantity" (number (Number.nat quantity)) end)))

abbrev app_world :
    (n : ℕ) → BookingWorld (plain_express (body n)) plain_zod list_tables counting_bus short_texts
app_world n = record {
  service = world empty_db;
  select_one = ok tt;
  select_outbox = ok tt;
  kafka_ready = true;
  metrics = "";
}

abbrev post : Request
post = plain_request "POST" "/bookings" "{…}" (some 33)

abbrev asked : CreateRequest
asked = record {
  user_id = canonical 7;
  event_id = canonical 9;
  quantity = 2;
  idempotency_key = some 33;
}

-- No seats are asked for.
booking_app_refused_example :
    Same
      (plain_express (body 0))
      plain_zod
      list_tables
      counting_bus
      short_texts
      50
      (app_world 0)
      (booking_app
        (plain_express (body 0))
        plain_zod
        list_tables
        counting_bus
        short_texts
        50
        (ids 100)
        77
        post
        (app_world 0)).1
unfolding booking_app serve booking_routes run_router run_mounted find_route post_booking
    create_booking_schema both property_of request_id_middleware
booking_app_refused_example =
    booking_app_refused (plain_express (body 0)) plain_zod list_tables counting_bus short_texts 50
      (ids 100) 77 post (app_world 0) refl

is_post_lem :
    IsBookingPost (plain_express (body 2)) plain_zod list_tables counting_bus short_texts post asked
unfolding create_booking_schema both property_of
is_post_lem = record {
  path = "/";
  params = object end;
  body = some (body 2);
  is_post = refl;
  mounted = refl;
  matched = refl;
  is_read = refl;
  is_valid = refl;
}

booking_app_replays_example :
    let (first, after) =
      booking_app
        (plain_express (body 2))
        plain_zod
        list_tables
        counting_bus
        short_texts
        50
        (ids 100)
        77
        post
        (app_world 2) in
    let (again, last) =
      booking_app
        (plain_express (body 2))
        plain_zod
        list_tables
        counting_bus
        short_texts
        90
        (ids 200)
        78
        post
        after in
    (again.reply ≡ first.reply) × (last ≡ after)
unfolding booking_app serve booking_routes run_router run_mounted find_route post_booking
    create_booking_schema both property_of request_id_middleware create_booking make_booking
    create_booking_with_outbox insert_booking record_key queue_event find_idempotency_record drain
booking_app_replays_example =
    booking_app_replays (plain_express (body 2)) plain_zod list_tables counting_bus short_texts 50
      (ids 100) 77 post (app_world 2) asked 33 is_post_lem refl (λ h. refl) refl 90 (ids 200) 78
