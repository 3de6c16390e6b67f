-- ===== src/User/App.antt =====
-- The HTTP side of the user service: user.schema.ts, `UserController` of user.controller.ts,
-- `createUserRouter` of user.routes.ts, and `createUserApp` of services/user-service/src/app.ts. The
-- time and the identifier that `randomUUID` makes are arguments.
use Prim.Native.String.{String}
use event_booking_system_mic.Common.{◌∷◌, List, ℕ, Option, Outcome, ok, [], throws}
use event_booking_system_mic.User.{
  UserDto, Spelling, Users, NewUser, create_user, list_users, get_user_by_id,
}
use event_booking_system_mic.Http.Zod.{
  Zod, Parsed, parse, id_param_schema, pagination_query_schema, keys, both,
}
use event_booking_system_mic.Http.{
  Express, Handler, Route, Request, send_json, Response, Reply, serve, send_created, run_router,
  run_mounted, or_else,
}
use event_booking_system_mic.Contracts.Json.{Json, property_of}
use event_booking_system_mic.Sql.{Sql}
use event_booking_system_mic.Http.Ready.{Body, service_routes, entity}
use event_booking_system_mic.Contracts.{UuidText}
use event_booking_system_mic.Errors.{Thrown}

-- What an answer of the service carries.
pub data UserAnswer : Type 0 where
  user : UserDto → UserAnswer
  users : List UserDto → UserAnswer

-- `createUserSchema`
unfoldable pub create_user_schema : Zod → Spelling → Option Json → Parsed NewUser
create_user_schema zod s body = keys zod body (λ ps.
    elim (both (zod.trimmed "Name is required" (property_of "name" ps))
      (zod.email "Email is required" "Email must be valid" (property_of "email" ps))) [
        | throws ms ↦ throws ms
        | ok (name, email) ↦ ok (record { name = name; email = s.to_lower_case email })
      ])

-- `userIdParamSchema`
unfoldable pub user_id_param_schema : Zod → Json → Parsed UuidText
user_id_param_schema zod params = id_param_schema zod "id" "Invalid user id" params

module _ (express : Express) (zod : Zod) (sql : Sql) (s : Spelling) where
  -- What the requests of the app work on: `select_one` is how `SELECT 1` ends and
  -- `metrics` what the registry prints.
  pub record UserWorld : Type 0 where
    pub db : Users sql s
    pub select_one : Outcome Thrown (Unit {0})
    pub metrics : String

  -- What the controller answers once the service is done.
  abbrev pub created :
      UserWorld
      → Outcome Thrown UserDto × Users sql s
      → Outcome Thrown (Reply (Body UserAnswer)) × UserWorld
  created w (throws e, db) = (throws e, record w { db = db })
  created w (ok dto, db) = (ok (send_created (entity (UserAnswer.user dto))), record w { db = db })

  -- `createUser` of the controller
  unfoldable pub post_user : ℕ → ℕ → Handler UserWorld (Body UserAnswer)
  post_user now id call w = elim (parse (create_user_schema zod s call.body)) [
    | throws e ↦ (throws e, w)
    | ok input ↦ created w (create_user sql s now id input w.db)
  ]

  -- `listUsers` of the controller
  unfoldable pub get_users : Handler UserWorld (Body UserAnswer)
  get_users call w = elim (parse (pagination_query_schema zod call.request.query)) [
    | throws e ↦ (throws e, w)
    | ok p ↦ (
      ok (send_json 200 (entity (UserAnswer.users (list_users sql s p.page p.page_size w.db)))),
      w,
    )
  ]

  -- `getUserById` of the controller
  unfoldable pub get_user : Handler UserWorld (Body UserAnswer)
  get_user call w = elim (parse (user_id_param_schema zod call.params)) [
    | throws e ↦ (throws e, w)
    | ok id ↦ elim (get_user_by_id sql s id.value w.db) [
      | throws e ↦ (throws e, w)
      | ok dto ↦ (ok (send_json 200 (entity (UserAnswer.user dto))), w)
    ]
  ]

  -- `createUserRouter`
  abbrev pub user_router : ℕ → ℕ → List (Route UserWorld (Body UserAnswer))
  user_router now id =
      record { method = "POST"; pattern = "/"; handler = post_user now id }
      ∷ record { method = "GET"; pattern = "/"; handler = get_users }
      ∷ record { method = "GET"; pattern = "/:id"; handler = get_user }
      ∷ []

  -- The checks of `/health/ready`.
  abbrev pub user_checks : UserWorld → List (String × Outcome Thrown (Unit {0}))
  user_checks w = ("database", w.select_one) ∷ []

  -- The routes of the app.
  unfoldable pub user_routes :
      ℕ
      → ℕ
      → Request
      → Option Json
      → UserWorld
      → Option (Outcome Thrown (Reply (Body UserAnswer)) × UserWorld)
  user_routes now id req body w =
      or_else (run_router express (service_routes user_checks (λ w. w.metrics)) req.path req body w)
        (run_mounted express "/users" (user_router now id) req body w)

  -- `createUserApp`
  unfoldable pub user_app : ℕ → ℕ → ℕ → Request → UserWorld → Response (Body UserAnswer) × UserWorld
  user_app now id fresh req w = serve express (user_routes now id) fresh req w
