-- ===== src/User/Refusals.antt =====
-- Requests to the user service that are answered with an error.
use event_booking_system_mic.Sql.{Sql}
use event_booking_system_mic.Http.{Express, Call, Request, run_router, run_mounted}
use event_booking_system_mic.Http.Zod.{Zod, parse}
use event_booking_system_mic.User.{
  Spelling, insert_user, Users, create_user, create, NewUser, UserDto, find_by_email, clean,
}
use event_booking_system_mic.User.App.{
  get_user, UserWorld, post_user, user_app, get_users, user_routes, created, create_user_schema,
  user_checks, user_router, UserAnswer,
}
use event_booking_system_mic.Http.Ready.{service_routes}
use event_booking_system_mic.Common.{
  Outcome, ℕ, ◌≡◌, arith, Outcome-cases, Option-cases, true, Option, ok, throws, refl, inl, inr,
}
use event_booking_system_mic.Errors.{Thrown}
use event_booking_system_mic.Http.Rules.{
  Keeps, is_failed, serve-Answered, Ends, or_else-Ends, run_router-Ends, service_routes-Handles,
  run_mounted-Ends,
}
use event_booking_system_mic.Contracts.Json.{Json}

module _ (sql : Sql) (s : Spelling) where
  -- What a call that throws has left.
  abbrev KeepsUsers : Users sql s → Outcome Thrown UserDto × Users sql s → Type 0
  KeepsUsers db (ok _, after) = Unit
  KeepsUsers db (throws _, after) = after ≡ db

  insert_user-KeepsUsers :
      (now id : ℕ) (input : NewUser) (db : Users sql s)
      → KeepsUsers db (insert_user sql s now id input db)
  unfolding insert_user create
  insert_user-KeepsUsers now id input db = ground arith

  create_user-KeepsUsers :
      (now id : ℕ) (input : NewUser) (db : Users sql s)
      → KeepsUsers db (create_user sql s now id input db)
  unfolding create_user
  create_user-KeepsUsers now id input db =
      elim (Option-cases (find_by_email sql s (clean s input.email) db)) [
        | inl e ↦ rw (create_user, e) (insert_user-KeepsUsers now id input db)
        | inr (u, e) ↦ rw (create_user, e) refl
      ]

module _ (express : Express) (zod : Zod) (sql : Sql) (s : Spelling) where
  abbrev Same : UserWorld express zod sql s → UserWorld express zod sql s → Type 0
  Same w after = after ≡ w

  created-Keeps :
      (w : UserWorld express zod sql s) (r : Outcome Thrown UserDto × Users sql s)
      → KeepsUsers sql s w.db r
      → Keeps Same w (created express zod sql s w r)
  created-Keeps w (throws e, db) h = rw h refl
  created-Keeps w (ok dto, db) h = λ f. absurd (ground (arith, f))

  post_user-Keeps :
      (now id : ℕ) (call : Call) (w : UserWorld express zod sql s)
      → Keeps Same w (post_user express zod sql s now id call w)
  unfolding post_user
  post_user-Keeps now id call w =
      elim (Outcome-cases (parse (create_user_schema zod s call.body))) [
        | inl (input, e) ↦
            rw (post_user, e)
              (created-Keeps w (create_user sql s now id input w.db)
                (create_user-KeepsUsers sql s now id input w.db))
        | inr (t, e) ↦ rw (post_user, e) refl
      ]

  get_users-Keeps :
      (call : Call) (w : UserWorld express zod sql s)
      → Keeps Same w (get_users express zod sql s call w)
  unfolding get_users
  get_users-Keeps call w = ground arith

  get_user-Keeps :
      (call : Call) (w : UserWorld express zod sql s)
      → Keeps Same w (get_user express zod sql s call w)
  unfolding get_user
  get_user-Keeps call w = ground arith

  user_routes-Ends :
      (now id : ℕ) (req : Request) (body : Option Json) (w : UserWorld express zod sql s)
      → Ends express (Keeps Same) w (user_routes express zod sql s now id req body w)
  unfolding user_routes
  user_routes-Ends now id req body w =
      or_else-Ends express (Keeps Same) w
        (run_router express (service_routes (user_checks express zod sql s) (λ w. w.metrics))
          req.path req body w)
        (run_mounted express "/users" (user_router express zod sql s now id) req body w)
        (run_router-Ends express (Keeps Same)
          (service_routes (user_checks express zod sql s) (λ w. w.metrics)) req.path req body w
          (service_routes-Handles UserAnswer express Same (user_checks express zod sql s)
            (λ w. w.metrics) (λ v. refl)))
        (run_mounted-Ends express (Keeps Same) "/users" (user_router express zod sql s now id) req
          body w (post_user-Keeps now id, (get_users-Keeps, (get_user-Keeps, tt))))

  -- A request that is answered with an error leaves the table of users as it was.
  pub user_app_refused :
      (now id fresh : ℕ) (req : Request) (w : UserWorld express zod sql s)
      → let (answer, after) = user_app express zod sql s now id fresh req w in
        is_failed answer.reply ≡ true → after ≡ w
  unfolding user_app
  user_app_refused now id fresh req w =
      serve-Answered express Same (user_routes express zod sql s now id) fresh (λ v. refl)
        (user_routes-Ends now id) req w
