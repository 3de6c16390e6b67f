-- ===== src/Event/App/Refusals.antt =====
-- Requests to the event service that are answered with an error.
use Prim.Native.String.{String}
use mathlib.Core.Option
use mathlib.Core.Path.{subst}
use event_booking_system_mic.Event.Events.{delete_event, update_event}
use event_booking_system_mic.Sql.{Sql}
use event_booking_system_mic.Event.Cache.{EventCache}
use event_booking_system_mic.Event.Events.{
  create_event, get_event_by_id, update_event, delete_event, EventWorld,
}
use event_booking_system_mic.Common.{
  ℕ, Outcome, ◌≡◌, ok, throws, inl, inr, some, none, Option-cases, Outcome-cases, List, refl,
  Option, true, false, leb, arith,
}
use event_booking_system_mic.Event.Types.{EventDto}
use event_booking_system_mic.Errors.{Thrown}
use event_booking_system_mic.Http.{Express, Call, Route, Request, Reply, run_router}
use event_booking_system_mic.Http.Zod.{Zod, parse, pagination_query_schema}
use event_booking_system_mic.Event.RateLimiter.Middleware.{Redis, RateLimiterOptions, rate_limit}
use event_booking_system_mic.Event.App.{
  limited_router, get_events, post_event, EventAppWorld, get_event, answered, answered_delete,
  put_event, delete_event_handler, event_body_schema, event_id_param_schema, EventAnswer, event_app,
  event_routes, event_checks, event_router,
}
use event_booking_system_mic.Http.Rules.{
  Keeps, Handles, Ends, is_failed, run_router-Ends, serve-Answered, service_routes-Handles,
  or_else-Ends,
}
use event_booking_system_mic.Http.Ready.{Body, service_routes}
use event_booking_system_mic.Event.Events.Refusals.{
  EventsKept, KeepsEvents, update_event-KeepsEvents, delete_event-KeepsEvents,
  get_event_by_id-KeepsEvents, create_event-KeepsEvents,
}
use event_booking_system_mic.Contracts.Json.{Json}

module _ (express : Express) (zod : Zod) (sql : Sql) (cache : EventCache) (redis : Redis) where
  abbrev pub World : Type 0
  World = EventAppWorld express zod sql cache redis

  -- What a request has left of the table of events.
  abbrev pub Same : World → World → Type 0
  Same w after = EventsKept sql cache w.service after.service

  answered-Keeps :
      (status : ℕ) (w : World) (r : Outcome Thrown EventDto × EventWorld sql cache)
      → leb 400 status ≡ false
      → KeepsEvents sql cache w.service r
      → Keeps Same w (answered express zod sql cache redis status w r)
  answered-Keeps status w (throws e, service) s h = h
  answered-Keeps status w (ok dto, service) s h = λ f. absurd (ground (arith, s, f))

  answered_delete-Keeps :
      (w : World) (r : Outcome Thrown (Unit {0}) × EventWorld sql cache)
      → KeepsEvents sql cache w.service r
      → Keeps Same w (answered_delete express zod sql cache redis w r)
  answered_delete-Keeps w (throws e, service) h = h
  answered_delete-Keeps w (ok _, service) h = λ f. absurd (ground (arith, f))

  post_event-Keeps :
      (now id : ℕ) (call : Call) (w : World)
      → Keeps Same w (post_event express zod sql cache redis now id call w)
  unfolding post_event
  post_event-Keeps now id call w = elim (Outcome-cases (parse (event_body_schema zod call.body))) [
    | inl (input, e) ↦
        rw (post_event, e)
          (answered-Keeps 201 w (create_event sql cache now id input w.service) refl
            (create_event-KeepsEvents sql cache now id input w.service))
    | inr (t, e) ↦ rw (post_event, e) (λ j. refl)
  ]

  get_events-Keeps :
      (call : Call) (w : World) → Keeps Same w (get_events express zod sql cache redis call w)
  unfolding get_events
  get_events-Keeps call w =
      elim (Outcome-cases (parse (pagination_query_schema zod call.request.query))) [
        | inl (p, e) ↦ rw (get_events, e) (λ f. absurd (ground (arith, f)))
        | inr (t, e) ↦ rw (get_events, e) (λ j. refl)
      ]

  -- A handler whose path gives it an id.
  module _ (call : Call) (w : World) where
    get_event-Keeps : (ttl : ℕ) → Keeps Same w (get_event express zod sql cache redis ttl call w)
    unfolding get_event
    get_event-Keeps ttl = elim (Outcome-cases (parse (event_id_param_schema zod call.params))) [
      | inl (id, e) ↦
          rw (get_event, e)
            (answered-Keeps 200 w (get_event_by_id sql cache ttl id w.service) refl
              (get_event_by_id-KeepsEvents sql cache ttl id w.service))
      | inr (t, e) ↦ rw (get_event, e) (λ j. refl)
    ]

    put_event-Keeps : (now : ℕ) → Keeps Same w (put_event express zod sql cache redis now call w)
    unfolding put_event
    put_event-Keeps now = elim (Outcome-cases (parse (event_id_param_schema zod call.params))) [
      | inl (id, e) ↦ elim (Outcome-cases (parse (event_body_schema zod call.body))) [
        | inl (input, f) ↦
            rw (put_event, e, f)
              (answered-Keeps 200 w (update_event sql cache now id input w.service) refl
                (update_event-KeepsEvents sql cache now id input w.service))
        | inr (t, f) ↦ rw (put_event, e, f) (λ j. refl)
      ]
      | inr (t, e) ↦ rw (put_event, e) (λ j. refl)
    ]

    delete_event_handler-Keeps :
        Keeps Same w (delete_event_handler express zod sql cache redis call w)
    unfolding delete_event_handler
    delete_event_handler-Keeps =
        elim (Outcome-cases (parse (event_id_param_schema zod call.params))) [
          | inl (id, e) ↦
              rw (delete_event_handler, e)
                (answered_delete-Keeps w (delete_event sql cache id w.service)
                  (delete_event-KeepsEvents sql cache id w.service))
          | inr (t, e) ↦ rw (delete_event_handler, e) (λ j. refl)
        ]

  limited_router-Keeps :
      (options : RateLimiterOptions) (key seconds : ℕ)
      (routes : List (Route World (Body EventAnswer))) (path : String) (req : Request)
      (body : Option Json) (w : World)
      → Handles express (Keeps Same) routes
      → Keeps Same w
          (limited_router express zod sql cache redis options key seconds routes path req body w)
  unfolding limited_router
  limited_router-Keeps options key seconds routes path req body w all =
      let ((_, rejection), limiter) = rate_limit redis options key seconds w.limiter in
      let w' : World = record w { limiter = limiter } in
      let ended = run_router-Ends express (Keeps Same) routes path req body w' all in
      elim (Option-cases rejection) [
        | inr (too, e) ↦ rw (limited_router, e) (λ h j. refl)
        | inl e ↦ elim (Option-cases (run_router express routes path req body w')) [
          | inl n ↦ rw (limited_router, e, n) (λ h j. refl)
          | inr (answer, f) ↦
              rw (limited_router, e, f) (subst (Ends express (Keeps Same) w') f ended)
        ]
      ]

  mapped-Ends :
      (o : Option String) (w : World)
      (f : String → Outcome Thrown (Reply (Body EventAnswer)) × World)
      → ((path : String) → Keeps Same w (f path))
      → Ends express (Keeps Same) w (Option.map f o)
  mapped-Ends none w f h = tt
  mapped-Ends (some path) w f h = h path

  module _ (options : RateLimiterOptions) (key : Request → ℕ) (seconds ttl now id : ℕ) where
    event_routes-Ends :
        (req : Request) (body : Option Json) (w : World)
        → Ends express
            (Keeps Same)
            w
            (event_routes express zod sql cache redis options key seconds ttl now id req body w)
    unfolding event_routes
    event_routes-Ends req body w =
        let checks = event_checks express zod sql cache redis in
        let print : World → String = λ v. v.metrics in
        let router = event_router express zod sql cache redis ttl now id in
        let health =
          run_router-Ends express (Keeps Same) (service_routes checks print) req.path req body w
            (service_routes-Handles EventAnswer express Same checks print (λ v j. refl)) in
        let limited = λ (path : String).
          limited_router-Keeps options (key req) seconds router path req body w (
            post_event-Keeps now id,
            (
              get_events-Keeps,
              (
                (λ c v. get_event-Keeps c v ttl),
                ((λ c v. put_event-Keeps c v now), (delete_event_handler-Keeps, tt)),
              ),
            ),
          ) in
        or_else-Ends express (Keeps Same) w
          (run_router express (service_routes checks print) req.path req body w)
          (Option.map
            (λ path.
              limited_router express zod sql cache redis options (key req) seconds router path req
                body w)
            (express.strip "/events" req.path))
          health
          (mapped-Ends (express.strip "/events" req.path) w
            (λ path.
              limited_router express zod sql cache redis options (key req) seconds router path req
                body w)
            limited)

    -- A request that is answered with an error, by the service, a schema, for want of a route or, with
    -- the status 429, by the rate limiter, has changed no event.
    pub event_app_refused :
        (fresh : ℕ) (req : Request) (w : World)
        → let (answer, after) =
            event_app express zod sql cache redis options key seconds ttl now id fresh req w in
          is_failed answer.reply ≡ true → Same w after
    unfolding event_app
    event_app_refused fresh req w =
        serve-Answered express Same
          (event_routes express zod sql cache redis options key seconds ttl now id) fresh
          (λ v j. refl) event_routes-Ends req w
