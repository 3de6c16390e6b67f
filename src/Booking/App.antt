-- ===== src/Booking/App.antt =====
-- The HTTP side of the booking service: booking.schema.ts, `BookingController` of
-- booking.controller.ts and `createBookingRouter` of booking.routes.ts in
-- services/booking-service/src/modules/bookings, and `createBookingApp` of
-- services/booking-service/src/app.ts. The time and the identifiers are arguments, as in the service.
mod Tests
pub mod Refusals
pub mod Replay
use Prim.Native.String.{String}
use event_booking_system_mic.Common.{
  ◌∷◌, Option, List, ℕ, Outcome, throws, Bool, [], if◌then◌else◌, ok,
}
use event_booking_system_mic.Booking.Types.{BookingDto}
use event_booking_system_mic.Http.Zod.{
  Zod, Parsed, id_param_schema, keys, both, parse, pagination_query_schema,
}
use event_booking_system_mic.Http.{
  Express, Handler, Request, Route, Reply, Response, or_else, serve, run_router, send_json,
  run_mounted,
}
use event_booking_system_mic.Sql.{Sql}
use event_booking_system_mic.Contracts.Json.{Json, property_of}
use event_booking_system_mic.Outbox.Dispatch.{Publisher}
use event_booking_system_mic.Booking.Service.{
  cancel_booking, Texts, CreateRequest, ServiceWorld, FreshIds, get_booking_by_id, create_booking,
  list_bookings_for_user,
}
use event_booking_system_mic.Contracts.{UuidText}
use event_booking_system_mic.Errors.{Thrown, plain_error}
use event_booking_system_mic.Http.Ready.{Body, service_routes, entity}

-- What an answer of the service carries.
pub data BookingAnswer : Type 0 where
  booking : BookingDto → BookingAnswer
  bookings : List BookingDto → BookingAnswer

-- `createBookingSchema`, with the header that the controller adds
unfoldable pub create_booking_schema : Zod → Option ℕ → Option Json → Parsed CreateRequest
create_booking_schema zod key body = keys zod body (λ ps.
    elim (both (zod.uuid "Invalid user id" (property_of "userId" ps)) (
      both (zod.uuid "Invalid event id" (property_of "eventId" ps))
        (zod.positive_int "Quantity must be greater than zero" (property_of "quantity" ps)))) [
          | throws ms ↦ throws ms
          | ok (user_id, (event_id, quantity)) ↦ ok (record {
            user_id = user_id;
            event_id = event_id;
            quantity = quantity;
            idempotency_key = key;
          })
        ])

-- `bookingIdParamSchema` and `userBookingsParamSchema`
unfoldable pub booking_id_param_schema : Zod → Json → Parsed UuidText
booking_id_param_schema zod params = id_param_schema zod "id" "Invalid booking id" params

unfoldable pub user_bookings_param_schema : Zod → Json → Parsed UuidText
user_bookings_param_schema zod params = id_param_schema zod "userId" "Invalid user id" params

module _ (express : Express) (zod : Zod) (sql : Sql) (publisher : Publisher) (texts : Texts) where
  -- What the requests of the app work on; the checks of `/health/ready` and what the registry
  -- prints are given.
  pub record BookingWorld : Type 0 where
    pub service : ServiceWorld sql publisher
    pub select_one : Outcome Thrown (Unit {0})
    pub select_outbox : Outcome Thrown (Unit {0})
    pub kafka_ready : Bool
    pub metrics : String

  abbrev pub BookingReply : Type 0
  BookingReply = Outcome Thrown (Reply (Body BookingAnswer)) × BookingWorld

  -- What the controller answers, with a status, once the service is done.
  abbrev pub answered :
      ℕ → BookingWorld → Outcome Thrown BookingDto × ServiceWorld sql publisher → BookingReply
  answered status w (throws e, service) = (throws e, record w { service = service })
  answered status w (ok dto, service) =
      (ok (send_json status (entity (BookingAnswer.booking dto))), record w { service = service })

  -- `createBooking` of the controller
  unfoldable pub post_booking : ℕ → FreshIds → Handler BookingWorld (Body BookingAnswer)
  post_booking now ids call w =
      elim (parse (create_booking_schema zod call.request.idempotency_key call.body)) [
        | throws e ↦ (throws e, w)
        | ok input ↦ answered 201 w (create_booking sql publisher texts now ids input w.service)
      ]

  -- `getBookingById` of the controller
  unfoldable pub get_booking : Handler BookingWorld (Body BookingAnswer)
  get_booking call w = elim (parse (booking_id_param_schema zod call.params)) [
    | throws e ↦ (throws e, w)
    | ok id ↦ answered 200 w (get_booking_by_id sql publisher id.value w.service, w.service)
  ]

  -- `listBookingsForUser` of the controller
  unfoldable pub get_bookings_of_user : Handler BookingWorld (Body BookingAnswer)
  get_bookings_of_user call w = elim (parse (user_bookings_param_schema zod call.params)) [
    | throws e ↦ (throws e, w)
    | ok id ↦ elim (parse (pagination_query_schema zod call.request.query)) [
      | throws e ↦ (throws e, w)
      | ok p ↦ (
        ok (
            send_json 200 (
              entity (
                BookingAnswer.bookings
                  (list_bookings_for_user sql publisher id.value p.page p.page_size w.service)))),
        w,
      )
    ]
  ]

  -- `cancelBooking` of the controller
  unfoldable pub post_cancel : ℕ → FreshIds → Handler BookingWorld (Body BookingAnswer)
  post_cancel now ids call w = elim (parse (booking_id_param_schema zod call.params)) [
    | throws e ↦ (throws e, w)
    | ok id ↦ answered 200 w (cancel_booking sql publisher now ids id.value w.service)
  ]

  -- `createBookingRouter`
  abbrev pub booking_router : ℕ → FreshIds → List (Route BookingWorld (Body BookingAnswer))
  booking_router now ids =
      record { method = "POST"; pattern = "/"; handler = post_booking now ids }
      ∷ record {
        method = "GET";
        pattern = "/users/:userId/bookings";
        handler = get_bookings_of_user;
      }
      ∷ record { method = "GET"; pattern = "/:id"; handler = get_booking }
      ∷ record { method = "POST"; pattern = "/:id/cancel"; handler = post_cancel now ids }
      ∷ []

  -- The checks of `/health/ready`.
  abbrev pub booking_checks : BookingWorld → List (String × Outcome Thrown (Unit {0}))
  booking_checks w =
      ("database", w.select_one)
      ∷ ("outbox", w.select_outbox)
      ∷ (
        "kafka",
        if w.kafka_ready then ok tt else throws (plain_error "Kafka consumer is not running"),
      )
      ∷ []

  -- The routes of the app.
  unfoldable pub booking_routes :
      ℕ → FreshIds → Request → Option Json → BookingWorld → Option BookingReply
  booking_routes now ids req body w =
      or_else
        (run_router express (service_routes booking_checks (λ w. w.metrics)) req.path req body w)
        (run_mounted express "/bookings" (booking_router now ids) req body w)

  -- `createBookingApp`
  unfoldable pub booking_app :
      ℕ → FreshIds → ℕ → Request → BookingWorld → Response (Body BookingAnswer) × BookingWorld
  booking_app now ids fresh req w = serve express (booking_routes now ids) fresh req w
