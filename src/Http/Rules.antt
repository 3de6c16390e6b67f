-- ===== src/Http/Rules.antt =====
-- From what the handlers of an app do to what the app does.
use Prim.Native.String.{String}
use text.Mathlib.Text.{◌==◌ as str_eq}
use event_booking_system_mic.Http.{
  Reply, Express, run_router, run_mounted, find_route, sent, Route, empty, Request, Handler, Call,
  failed, serve, answer, Response, call_handler, request_id_middleware, or_else,
}
use event_booking_system_mic.Common.{
  Outcome, Bool, leb, throws, List, ok, All, Option, true, ◌≡◌, some, ◌∷◌, [], Bool-cases,
  Option-cases, none, ℕ, inl, inr, Outcome-cases,
}
use event_booking_system_mic.Errors.{Thrown}
use event_booking_system_mic.Contracts.Json.{Json}
use event_booking_system_mic.Http.Ready.{health_live, health_ready, metrics_handler, service_routes}

-- An answer of the error handler or of `notFoundHandler`, or one with a status from 400 on.
abbrev pub is_failed : {B : Type 0} → Reply B → Bool
is_failed (sent status _) = leb 400 status
is_failed (empty status) = leb 400 status
is_failed (failed _) = true

-- Whatever ends with an error, or with an answer that is one, has left the state related to the one
-- it found.
abbrev pub Keeps : {W B : Type 0} → (W → W → Type 0) → W → Outcome Thrown (Reply B) × W → Type 0
Keeps R w (throws _, after) = R w after
Keeps R w (ok reply, after) = is_failed reply ≡ true → R w after

module _ (express : Express) {W B : Type 0} (Q : W → Outcome Thrown (Reply B) × W → Type 0) where
  -- Every handler of the routes, however it is called.
  abbrev pub Handles : List (Route W B) → Type 0
  Handles routes = All (λ r. (call : Call) (w : W) → Q w (r.handler call w)) routes

  abbrev Serves : Option (Handler W B × Json) → Type 0
  Serves none = Unit
  Serves (some (h, _)) = (call : Call) (w : W) → Q w (h call w)

  -- What a router has done on a request, if a route fits.
  abbrev pub Ends : W → Option (Outcome Thrown (Reply B) × W) → Type 0
  Ends w none = Unit
  Ends w (some x) = Q w x

  find_route-Serves :
      (method path : String) (routes : List (Route W B))
      → Handles routes
      → Serves (find_route express method path routes)
  unfolding find_route
  find_route-Serves method path [] all = tt
  find_route-Serves method path (r ∷ rs) (one, all) =
      let rest = find_route-Serves method path rs all in
      elim (Bool-cases (str_eq method r.method)) [
        | inl e ↦ elim (Option-cases (express.match_path r.pattern path)) [
          | inl n ↦ rw (e, n) rest
          | inr (p, f) ↦ rw (e, f) one
        ]
        | inr e ↦ rw e rest
      ]

  call_handler-Ends :
      (req : Request) (body : Option Json) (w : W) (o : Option (Handler W B × Json))
      → Serves o
      → Ends w (call_handler express req body w o)
  call_handler-Ends req body w none served = tt
  call_handler-Ends req body w (some (h, params)) served =
      served (record { request = req; params = params; body = body }) w

  pub run_router-Ends :
      (routes : List (Route W B)) (path : String) (req : Request) (body : Option Json) (w : W)
      → Handles routes
      → Ends w (run_router express routes path req body w)
  unfolding run_router
  run_router-Ends routes path req body w all =
      call_handler-Ends req body w (find_route express req.method path routes)
        (find_route-Serves req.method path routes all)

  pub run_mounted-Ends :
      (mount : String) (routes : List (Route W B)) (req : Request) (body : Option Json) (w : W)
      → Handles routes
      → Ends w (run_mounted express mount routes req body w)
  unfolding run_mounted
  run_mounted-Ends mount routes req body w all =
      elim (Option-cases (express.strip mount req.path)) [
        | inl n ↦ rw (Ends, n) tt
        | inr (path, f) ↦ rw (Ends, f) (run_router-Ends routes path req body w all)
      ]

  pub or_else-Ends :
      (w : W) (a b : Option (Outcome Thrown (Reply B) × W))
      → Ends w a
      → Ends w b
      → Ends w (or_else a b)
  or_else-Ends w none b h k = k
  or_else-Ends w (some x) b h k = h

-- The routes that each app has beside its router change nothing.
pub service_routes-Handles :
    {W : Type 0} (A : Type 0) (express : Express) (R : W → W → Type 0)
    (checks : W → List (String × Outcome Thrown (Unit {0}))) (print : W → String)
    → ((v : W) → R v v)
    → Handles express (Keeps R) (service_routes {A = A} checks print)
unfolding health_live health_ready metrics_handler
service_routes-Handles A express R checks print same =
    ((λ call w h. same w), ((λ call w h. same w), ((λ call w h. same w), tt)))

module _ (express : Express) {W B : Type 0} (R : W → W → Type 0) where
  -- What is asked of an answer to a request on `w`.
  abbrev pub Answered : W → Response B × W → Type 0
  Answered w (a, after) = is_failed a.reply ≡ true → R w after

  answer-Answered :
      (same : (v : W) → R v v) (req : Request) (w : W) (o : Option (Outcome Thrown (Reply B) × W))
      → Ends express (Keeps R) w o
      → Answered w (answer express req w o)
  answer-Answered same req w none e h = same w
  answer-Answered same req w (some (throws t, after)) e h = e
  answer-Answered same req w (some (ok reply, after)) e h = e h

  -- An app whose router leaves related what it answers with an error does so itself.
  pub serve-Answered :
      (app : Request → Option Json → W → Option (Outcome Thrown (Reply B) × W)) (fresh : ℕ)
      → ((v : W) → R v v)
      → ((req : Request) (body : Option Json) (v : W) → Ends express (Keeps R) v (app req body v))
      → (req : Request) (w : W) → Answered w (serve express app fresh req w)
  unfolding serve
  serve-Answered app fresh same keeps req w = elim (Outcome-cases (express.read_body req.content)) [
    | inl (body, e) ↦
        let req' = request_id_middleware fresh req in
        rw (serve, e) (answer-Answered same req' w (app req' body w) (keeps req' body w))
    | inr (t, e) ↦ rw (serve, e) (λ h. same w)
  ]
