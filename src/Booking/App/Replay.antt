-- ===== src/Booking/App/Replay.antt =====
-- A request to the booking service that is sent again, through its whole app.
use Prim.Native.String.{String}
use event_booking_system_mic.Http.{
  answer, Express, Request, request_id_middleware, run_router, run_mounted, find_route, Response,
  serve,
}
use event_booking_system_mic.Http.Zod.{Zod}
use event_booking_system_mic.Sql.{Sql}
use event_booking_system_mic.Outbox.Dispatch.{Publisher}
use event_booking_system_mic.Booking.Service.{
  Texts, CreateRequest, ServiceWorld, FreshIds, create_booking,
}
use event_booking_system_mic.Booking.App.{
  booking_routes, BookingWorld, post_booking, BookingAnswer, create_booking_schema, answered,
  booking_app,
}
use event_booking_system_mic.Common.{
  ℕ, ◌≡◌, ◌∙◌, Outcome, arith, Option, some, ok, refl, false, none, ap, throws,
}
use event_booking_system_mic.Errors.{Thrown}
use event_booking_system_mic.Booking.Types.{BookingDto, booking_schema}
use event_booking_system_mic.Contracts.Json.{Json}
use event_booking_system_mic.Http.Ready.{Body}
use event_booking_system_mic.Booking.Repository.Rows.{truthy_key}
use event_booking_system_mic.Booking.Service.Repeat.{Repeats, create_booking-Repeats}
use event_booking_system_mic.Http.Rules.{is_failed}
use event_booking_system_mic.Booking.Repository.Create.{find_idempotency_record}

module _ (express : Express) (zod : Zod) (sql : Sql) (publisher : Publisher) (texts : Texts) where
  -- `POST /bookings` with a body that `createBookingSchema` reads, with the header, as `r`.
  pub record IsBookingPost (req : Request) (r : CreateRequest) : Type 0 where
    pub path : String
    pub params : Json
    pub body : Option Json
    pub is_post : req.method ≡ "POST"
    pub mounted : express.strip "/bookings" req.path ≡ some path
    pub matched : express.match_path "/" path ≡ some params
    pub is_read : express.read_body req.content ≡ ok body
    pub is_valid : create_booking_schema zod req.idempotency_key body ≡ ok r

  abbrev answered_post :
      Request
      → BookingWorld express zod sql publisher texts
      → Outcome Thrown BookingDto × ServiceWorld sql publisher
      → Response (Body BookingAnswer) × BookingWorld express zod sql publisher texts
  answered_post req w r =
      answer express req w (some (answered express zod sql publisher texts 201 w r))

  request_id_middleware-rest :
      (fresh : ℕ) (req : Request)
      → let req' = request_id_middleware fresh req in
        (req'.method ≡ req.method)
        × (req'.path ≡ req.path)
        × (req'.idempotency_key ≡ req.idempotency_key)
  unfolding request_id_middleware
  request_id_middleware-rest fresh req = ground arith

  booking_routes_post :
      (now : ℕ) (ids : FreshIds) (req : Request) (body : Option Json)
      (w : BookingWorld express zod sql publisher texts) (r : CreateRequest) {path : String}
      {params : Json}
      → req.method ≡ "POST"
      → express.strip "/bookings" req.path ≡ some path
      → express.match_path "/" path ≡ some params
      → create_booking_schema zod req.idempotency_key body ≡ ok r
      → booking_routes express zod sql publisher texts now ids req body w
        ≡ some (
            answered express zod sql publisher texts 201 w
              (create_booking sql publisher texts now ids r w.service))
  unfolding booking_routes run_router run_mounted find_route post_booking
  booking_routes_post now ids req body w r m s p v =
      rw (m, run_mounted, s, p, m, post_booking, v) refl

  booking_app_post :
      (now : ℕ) (ids : FreshIds) (fresh : ℕ) (req : Request)
      (w : BookingWorld express zod sql publisher texts) (r : CreateRequest)
      → IsBookingPost req r
      → booking_app express zod sql publisher texts now ids fresh req w
        ≡ answered_post
            (request_id_middleware fresh req)
            w
            (create_booking sql publisher texts now ids r w.service)
  unfolding booking_app serve
  booking_app_post now ids fresh req w r post =
      let req' = request_id_middleware fresh req in
      let (m, p, k) = request_id_middleware-rest fresh req in
      let routed =
        booking_routes_post now ids req' post.body w r {path = post.path} {params = post.params}
          (m ∙ post.is_post) (ap (express.strip "/bookings") p ∙ post.mounted) post.matched
          (ap (λ key. create_booking_schema zod key post.body) k ∙ post.is_valid) in
      rw (booking_app, serve, post.is_read, routed) refl

  -- What the second of two equal requests is answered, and leaves.
  answered_post_replays :
      (first_req : Request) (w : BookingWorld express zod sql publisher texts) (r : CreateRequest)
      (x : Outcome Thrown BookingDto × ServiceWorld sql publisher)
      → Repeats sql publisher texts r x
      → let (first, after) = answered_post first_req w x in
        is_failed first.reply ≡ false
        → (now : ℕ) (ids : FreshIds) (req : Request)
        → let (again, last) =
            answered_post req after (create_booking sql publisher texts now ids r after.service) in
          (again.reply ≡ first.reply) × (last ≡ after)
  answered_post_replays first_req w r (throws e, service) same h now ids req = absurd (ground arith)
  answered_post_replays first_req w r (ok b, service) same h now ids req =
      rw (same now ids) (refl, refl)

  -- Where no booking has the key without a record of it: a well-formed `POST /bookings` with a key
  -- that is answered with a booking is answered with the same booking when it is sent again, at
  -- any time, and the second time the service is left as it was.
  pub booking_app_replays :
      (now : ℕ) (ids : FreshIds) (fresh : ℕ) (req : Request)
      (w : BookingWorld express zod sql publisher texts) (r : CreateRequest) (k : ℕ)
      → IsBookingPost req r
      → truthy_key r.idempotency_key ≡ some k
      → (find_idempotency_record sql k w.service.db ≡ none
          → sql.find_by booking_schema k w.service.db.bookings ≡ none)
      → let (first, after) = booking_app express zod sql publisher texts now ids fresh req w in
        is_failed first.reply ≡ false
        → (now' : ℕ) (ids' : FreshIds) (fresh' : ℕ)
        → let (again, last) =
            booking_app express zod sql publisher texts now' ids' fresh' req after in
          (again.reply ≡ first.reply) × (last ≡ after)
  booking_app_replays now ids fresh req w r k post t recorded =
      let x = create_booking sql publisher texts now ids r w.service in
      let same = create_booking-Repeats sql publisher texts now ids r w.service k t recorded in
      rw (booking_app_post now ids fresh req w r post) (λ h now' ids' fresh'.
        let after = (answered_post (request_id_middleware fresh req) w x).1 in
        rw (booking_app_post now' ids' fresh' req after r post) (
          answered_post_replays (request_id_middleware fresh req) w r x same h now' ids'
            (request_id_middleware fresh' req)))
