-- ===== src/User/Accounts.antt =====
-- Registering users.
use event_booking_system_mic.Common.{
  ℕ, Outcome, ◌≡◌, refl, ok, none, Option, if◌then◌else◌, arith, some, ◌==◌, throws, is_some, ◌||◌,
  true,
}
use event_booking_system_mic.Sql.{Sql}
use event_booking_system_mic.User.{
  NewUser, Spelling, Users, CreateUserInput, clean, insert_user, new_user, create_user, create,
  UserDto, user_schema, find_by_id, map_row, find_by_email, duplicate_email,
}
use event_booking_system_mic.Errors.{Thrown}

abbrev pub asked : ℕ → NewUser → CreateUserInput
asked id input = record { id = id; name = input.name; email = input.email }

module _ (sql : Sql) (s : Spelling) where
  -- How registering on `db` may end, and what it has then done.
  abbrev pub Registers :
      ℕ → ℕ → NewUser → Users sql s → Outcome Thrown UserDto × Users sql s → Type 0
  Registers now id input db (ok user, after) =
      (user ≡ map_row (new_user s now (asked id input)))
      × (find_by_email sql s input.email db ≡ none)
      × ((j : ℕ)
          → find_by_id sql s j after ≡ (if j == id then some user else find_by_id sql s j db))
      × ((email : ℕ)
          → find_by_email sql s email after ≡ (
              if clean s input.email == clean s email
              then some user
              else find_by_email sql s email db))
  Registers now id input db (throws e, after) =
      (e ≡ duplicate_email)
      × (after ≡ db)
      × (is_some (find_by_id sql s id db) || is_some (find_by_email sql s input.email db) ≡ true)

  module _ (idempotent : (e : ℕ) → clean s (clean s e) ≡ clean s e) where
    -- How the insert ends, from what the table answers.
    abbrev ended :
        ℕ → ℕ → NewUser → Users sql s → Option (Users sql s) → Outcome Thrown UserDto × Users sql s
    ended now id input db none = (throws duplicate_email, db)
    ended now id input db (some db') = (ok (map_row (new_user s now (asked id input))), db')

    insert_user_ends :
        (now id : ℕ) (input : NewUser) (db : Users sql s) (o : Option (Users sql s))
        → sql.create user_schema (new_user s now (asked id input)) db ≡ o
        → insert_user sql s now id input db ≡ ended now id input db o
    unfolding insert_user create
    insert_user_ends now id input db none e = ground (arith, idempotent input.email, e)
    insert_user_ends now id input db (some db') e = ground (arith, idempotent input.email, e)

    ended-Registers :
        (now id : ℕ) (input : NewUser) (db : Users sql s) (o : Option (Users sql s))
        → sql.create user_schema (new_user s now (asked id input)) db ≡ o
        → Registers now id input db (ended now id input db o)
    unfolding find_by_id find_by_email
    ended-Registers now id input db none e = (
      refl,
      refl,
      ground (arith, e, sql.create-taken user_schema (new_user s now (asked id input)) db),
    )
    ended-Registers now id input db (some db') e = (
      refl,
      ground (arith, e, sql.create-taken user_schema (new_user s now (asked id input)) db),
      (λ j.
          ground (
            arith,
            sql.find-create user_schema (new_user s now (asked id input)) db {t' = db'} j e,
          )),
      (λ email. ground (
        arith,
        sql.find_by-create user_schema (new_user s now (asked id input)) db {t' = db'}
            (clean s email) e,
      )),
    )

    -- The insert of `createUser` registers on whatever database it finds, which other requests may
    -- have written to since the look-up.
    pub insert_user-Registers :
        (now id : ℕ) (input : NewUser) (db : Users sql s)
        → Registers now id input db (insert_user sql s now id input db)
    insert_user-Registers now id input db =
        let o = sql.create user_schema (new_user s now (asked id input)) db in
        rw (insert_user_ends now id input db o refl) (ended-Registers now id input db o refl)

    after_look_up :
        (now id : ℕ) (input : NewUser) (db : Users sql s) (o : Option UserDto)
        → find_by_email sql s input.email db ≡ o
        → Registers now id input db (create_user sql s now id input db)
    unfolding create_user find_by_email
    after_look_up now id input db none e =
        rw (create_user, find_by_email, idempotent input.email, e)
          (insert_user-Registers now id input db)
    after_look_up now id input db (some u) e =
        rw (create_user, find_by_email, idempotent input.email, e) (refl, refl, ground arith)

    -- Where cleaning an address twice is cleaning it once: `createUser` ends with the new user, who is
    -- then found by the id and by every spelling of the address and did not have the address before,
    -- while all else is found as before; or it ends with DUPLICATE_EMAIL, has written nothing and
    -- found the id or the address taken.
    pub create_user-Registers :
        (now id : ℕ) (input : NewUser) (db : Users sql s)
        → Registers now id input db (create_user sql s now id input db)
    create_user-Registers now id input db =
        after_look_up now id input db (find_by_email sql s input.email db) refl
