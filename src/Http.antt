-- ===== src/Http.antt =====
-- What the three services' apps share: services/*/src/app.ts up to the routes, the middleware files
-- request-id.ts, not-found.ts and error-handler.ts, and utils/response.ts (the services have the
-- same code). Express is a parameter: how it reads a body, and how it matches a path.
use Prim.Native.String.{String}
use Prim.Native.String.{◌++◌ as str_append}
use event_booking_system_mic.Common.{
  ◌∷◌, ℕ, Option, List, Outcome, none, if◌then◌else◌, ok, throws, some, [],
}
use text.Mathlib.Text.{◌==◌ as str_eq}
pub mod Zod
pub mod Ready
pub mod Rules
pub mod Samples
use event_booking_system_mic.Contracts.Json.{Json}
use event_booking_system_mic.Errors.{ErrorBody, Thrown, error_handler}

pub record Request : Type 0 where
  pub method : String
  pub path : String
  pub original_url : String
  pub content : String
  pub query : Json
  pub request_id : Option ℕ  -- the header x-request-id
  pub idempotency_key : Option ℕ  -- the header Idempotency-Key

-- What a handler of a route is called with.
pub record Call : Type 0 where
  pub request : Request
  pub params : Json
  pub body : Option Json

pub data Reply (B : Type 0) : Type 0 where
  sent : ℕ → B → Reply B
  empty : ℕ → Reply B
  failed : ErrorBody → Reply B

-- `sendJson`, `sendCreated` and `sendNoContent`
abbrev pub send_json : {B : Type 0} → ℕ → B → Reply B
send_json status body = sent status body

abbrev pub send_created : {B : Type 0} → B → Reply B
send_created body = send_json 201 body

abbrev pub send_no_content : {B : Type 0} → Reply B
send_no_content = empty 204

abbrev pub status_of : {B : Type 0} → Reply B → ℕ
status_of (sent status _) = status
status_of (empty status) = status
status_of (failed e) = e.status

-- The answer with its header x-request-id.
pub record Response (B : Type 0) : Type 0 where
  pub request_id : Option ℕ
  pub reply : Reply B

-- `express.json()` leaves a body out where there is none and passes an error on where the text is no
-- JSON or too long; `match_path` gives the parameters of a path that fits a route's pattern, and
-- `strip` the rest of a path behind the one that a router is mounted at.
pub record Express : Type 0 where
  pub read_body : String → Outcome Thrown (Option Json)
  pub match_path : String → String → Option Json
  pub strip : String → String → Option String

-- `requestIdMiddleware`: the id that the request then has.
unfoldable pub request_id_middleware : ℕ → Request → Request
request_id_middleware fresh req = elim req.request_id [
  | none ↦ record req { request_id = some fresh }
  | some id ↦ req
]

-- `notFoundHandler`
unfoldable pub not_found_handler : Request → ErrorBody
not_found_handler req = record {
  status = 404;
  code = "NOT_FOUND";
  message =
      str_append "Route not found: " (str_append req.method (str_append " " req.original_url));
  request_id = req.request_id;
}

-- What a handler's `catch` does with an error, `next(error)`.
abbrev pub or_failed : {B : Type 0} → Request → Outcome Thrown (Reply B) → Reply B
or_failed req (ok reply) = reply
or_failed req (throws e) = failed (error_handler e req.request_id)

abbrev pub Handler : Type 0 → Type 0 → Type 0
Handler W B = Call → W → Outcome Thrown (Reply B) × W

pub record Route (W B : Type 0) : Type 0 where
  pub method : String
  pub pattern : String
  pub handler : Handler W B

-- Where the first router has no route, the second one is asked.
abbrev pub or_else : {X : Type 0} → Option X → Option X → Option X
or_else (some x) o = some x
or_else none o = o

module _ (express : Express) {W B : Type 0} where
  -- The first route that a path fits, with the parameters in the path.
  unfoldable pub find_route : String → String → List (Route W B) → Option (Handler W B × Json)
  find_route method path [] = none
  find_route method path (r ∷ rs) =
      let rest = find_route method path rs in
      if str_eq method r.method
      then elim (express.match_path r.pattern path) [
        | some params ↦ some (r.handler, params)
        | none ↦ rest
      ]
      else rest

  -- The handler that was found is called.
  abbrev pub call_handler :
      Request
      → Option Json
      → W
      → Option (Handler W B × Json)
      → Option (Outcome Thrown (Reply B) × W)
  call_handler req body w none = none
  call_handler req body w (some (handler, params)) =
      some (handler (record { request = req; params = params; body = body }) w)

  -- A router on a path; `none` where no route fits.
  unfoldable pub run_router :
      List (Route W B) → String → Request → Option Json → W → Option (Outcome Thrown (Reply B) × W)
  run_router routes path req body w = call_handler req body w (find_route req.method path routes)

  -- `app.use(mount, router)`
  unfoldable pub run_mounted :
      String → List (Route W B) → Request → Option Json → W → Option (Outcome Thrown (Reply B) × W)
  run_mounted mount routes req body w = elim (express.strip mount req.path) [
    | none ↦ none
    | some path ↦ run_router routes path req body w
  ]

  -- What the client gets once the router has run, from `notFoundHandler` where no route fits.
  abbrev pub answer : Request → W → Option (Outcome Thrown (Reply B) × W) → Response B × W
  answer req w none =
      (record { request_id = req.request_id; reply = failed (not_found_handler req) }, w)
  answer req w (some (r, w')) =
      (record { request_id = req.request_id; reply = or_failed req r }, w')

  -- What an app makes of a request: the body is read before the request has its id; `app` is the
  -- part behind the two.
  unfoldable pub serve :
      (Request → Option Json → W → Option (Outcome Thrown (Reply B) × W))
      → ℕ
      → Request
      → W
      → Response B × W
  serve app fresh req w = elim (express.read_body req.content) [
    | throws e ↦ (record { request_id = none; reply = failed (error_handler e req.request_id) }, w)
    | ok body ↦ let req' = request_id_middleware fresh req in answer req' w (app req' body w)
  ]
