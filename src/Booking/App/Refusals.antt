-- ===== src/Booking/App/Refusals.antt =====
-- Requests to the booking service that are answered with an error.
use Prim.Native.String.{String}
use event_booking_system_mic.Sql.{Sql}
use event_booking_system_mic.Outbox.Dispatch.{Publisher}
use event_booking_system_mic.Booking.Service.{
  cancel_booking, ServiceWorld, create_booking, Texts, FreshIds, get_booking_by_id,
}
use event_booking_system_mic.Common.{
  ℕ, Outcome, ◌≡◌, ok, throws, true, inl, inr, Outcome-cases, Option, false, leb, refl, arith,
}
use event_booking_system_mic.Booking.Types.{BookingDto}
use event_booking_system_mic.Errors.{Thrown}
use event_booking_system_mic.Http.{Express, Call, Request, run_router, run_mounted}
use event_booking_system_mic.Http.Zod.{Zod, parse, pagination_query_schema}
use event_booking_system_mic.Booking.App.{
  post_booking, booking_app, get_booking, BookingWorld, post_cancel, get_bookings_of_user,
  booking_routes, answered, booking_id_param_schema, user_bookings_param_schema,
  create_booking_schema, booking_checks, booking_router, BookingAnswer,
}
use event_booking_system_mic.Http.Rules.{
  Keeps, is_failed, serve-Answered, Ends, or_else-Ends, run_router-Ends, run_mounted-Ends,
  service_routes-Handles,
}
use event_booking_system_mic.Contracts.Json.{Json}
use event_booking_system_mic.Http.Ready.{service_routes}
use event_booking_system_mic.Booking.Service.Refusals.{
  cancel_booking-KeepsService, KeepsService, Refused-refl, create_booking-KeepsService, Refused,
}

module _ (express : Express) (zod : Zod) (sql : Sql) (publisher : Publisher) (texts : Texts) where
  abbrev pub World : Type 0
  World = BookingWorld express zod sql publisher texts

  -- What a request at a time has left of the service's tables and of the bus.
  abbrev pub Same : ℕ → World → World → Type 0
  Same now w after = Refused sql publisher now w.service after.service

  answered-Keeps :
      (now status : ℕ) (w : World) (r : Outcome Thrown BookingDto × ServiceWorld sql publisher)
      → leb 400 status ≡ false
      → KeepsService sql publisher now w.service r
      → Keeps (Same now) w (answered express zod sql publisher texts status w r)
  answered-Keeps now status w (throws e, service) s h = h
  answered-Keeps now status w (ok dto, service) s h = λ f. absurd (ground (arith, s, f))

  get_booking_by_id-KeepsService :
      (now : ℕ) (r : Outcome Thrown BookingDto) (v : ServiceWorld sql publisher)
      → KeepsService sql publisher now v (r, v)
  get_booking_by_id-KeepsService now (ok b) v = tt
  get_booking_by_id-KeepsService now (throws e) v = Refused-refl sql publisher now v

  post_booking-Keeps :
      (now : ℕ) (ids : FreshIds) (call : Call) (w : World)
      → Keeps (Same now) w (post_booking express zod sql publisher texts now ids call w)
  unfolding post_booking
  post_booking-Keeps now ids call w =
      elim (Outcome-cases
        (parse (create_booking_schema zod call.request.idempotency_key call.body))) [
          | inl (r, e) ↦
              rw (post_booking, e)
                (answered-Keeps now 201 w (create_booking sql publisher texts now ids r w.service)
                  refl (create_booking-KeepsService sql publisher texts now ids r w.service))
          | inr (t, e) ↦ rw (post_booking, e) (Refused-refl sql publisher now w.service)
        ]

  get_booking-Keeps :
      (now : ℕ) (call : Call) (w : World)
      → Keeps (Same now) w (get_booking express zod sql publisher texts call w)
  unfolding get_booking
  get_booking-Keeps now call w =
      elim (Outcome-cases (parse (booking_id_param_schema zod call.params))) [
        | inl (id, e) ↦
            let r = get_booking_by_id sql publisher id.value w.service in
            rw (get_booking, e)
              (answered-Keeps now 200 w (r, w.service) refl
                (get_booking_by_id-KeepsService now r w.service))
        | inr (t, e) ↦ rw (get_booking, e) (Refused-refl sql publisher now w.service)
      ]

  get_bookings_of_user-Keeps :
      (now : ℕ) (call : Call) (w : World)
      → Keeps (Same now) w (get_bookings_of_user express zod sql publisher texts call w)
  unfolding get_bookings_of_user
  get_bookings_of_user-Keeps now call w =
      elim (Outcome-cases (parse (user_bookings_param_schema zod call.params))) [
        | inl (id, e) ↦
            elim (Outcome-cases (parse (pagination_query_schema zod call.request.query))) [
              | inl (p, f) ↦ rw (get_bookings_of_user, e, f) (λ h. absurd (ground (arith, h)))
              | inr (t, f) ↦
                  rw (get_bookings_of_user, e, f) (Refused-refl sql publisher now w.service)
            ]
        | inr (t, e) ↦ rw (get_bookings_of_user, e) (Refused-refl sql publisher now w.service)
      ]

  post_cancel-Keeps :
      (now : ℕ) (ids : FreshIds) (call : Call) (w : World)
      → Keeps (Same now) w (post_cancel express zod sql publisher texts now ids call w)
  unfolding post_cancel
  post_cancel-Keeps now ids call w =
      elim (Outcome-cases (parse (booking_id_param_schema zod call.params))) [
        | inl (id, e) ↦
            rw (post_cancel, e)
              (answered-Keeps now 200 w (cancel_booking sql publisher now ids id.value w.service)
                refl (cancel_booking-KeepsService sql publisher now ids id.value w.service))
        | inr (t, e) ↦ rw (post_cancel, e) (Refused-refl sql publisher now w.service)
      ]

  booking_routes-Ends :
      (now : ℕ) (ids : FreshIds) (req : Request) (body : Option Json) (w : World)
      → Ends express
          (Keeps (Same now))
          w
          (booking_routes express zod sql publisher texts now ids req body w)
  unfolding booking_routes
  booking_routes-Ends now ids req body w =
      let checks = booking_checks express zod sql publisher texts in
      let print : World → String = λ v. v.metrics in
      let router = booking_router express zod sql publisher texts now ids in
      or_else-Ends express (Keeps (Same now)) w
        (run_router express (service_routes checks print) req.path req body w)
        (run_mounted express "/bookings" router req body w)
        (run_router-Ends express (Keeps (Same now)) (service_routes checks print) req.path req body
          w
          (service_routes-Handles BookingAnswer express (Same now) checks print
            (λ v. Refused-refl sql publisher now v.service)))
        (run_mounted-Ends express (Keeps (Same now)) "/bookings" router req body w (
          post_booking-Keeps now ids,
          (
            get_bookings_of_user-Keeps now,
            (get_booking-Keeps now, (post_cancel-Keeps now ids, tt)),
          ),
        ))

  -- A request that is answered with an error, or with a status from 400 on, has sent nothing; and it
  -- has written no booking, no outbox row and no idempotency key, unless the database refuses the
  -- claims of the outbox at its time.
  pub booking_app_refused :
      (now : ℕ) (ids : FreshIds) (fresh : ℕ) (req : Request) (w : World)
      → let (answer, after) = booking_app express zod sql publisher texts now ids fresh req w in
        is_failed answer.reply ≡ true → Same now w after
  unfolding booking_app
  booking_app_refused now ids fresh req w =
      serve-Answered express (Same now) (booking_routes express zod sql publisher texts now ids)
        fresh (λ v. Refused-refl sql publisher now v.service) (booking_routes-Ends now ids) req w
