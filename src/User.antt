-- ===== src/User.antt =====
-- services/user-service/src/modules/users: user.types.ts, user.errors.ts, `PrismaUserRepository` of
-- user.repository.ts and `UsersService` of user.service.ts. The text of an e-mail address is the
-- number that it stands for, as that of an idempotency key is; `trim` and `toLowerCase` are
-- parameters.
use Prim.Native.String.{String}
use mathlib.Core.Option
pub mod Accounts
pub mod App
pub mod Refusals
mod Tests
use event_booking_system_mic.Common.{
  ◌-◌, ◌*◌, ℕ, Option, List, some, Outcome, none, throws, map, ok, true,
}
use event_booking_system_mic.Sql.{Schema, Sql}
use event_booking_system_mic.Errors.{Thrown, app_error, unique_violation}

-- A row of `users` (services/user-service/prisma/schema.prisma).
pub record UserRecord : Type 0 where
  pub id : ℕ
  pub name : String
  pub email : ℕ
  pub created_at : ℕ
  pub updated_at : ℕ

pub record UserDto : Type 0 where
  pub id : ℕ
  pub name : String
  pub email : ℕ
  pub created_at : ℕ
  pub updated_at : ℕ

-- `CreateUserInput`
pub record CreateUserInput : Type 0 where
  pub id : ℕ
  pub name : String
  pub email : ℕ

-- What `createUser` of the service is given.
pub record NewUser : Type 0 where
  pub name : String
  pub email : ℕ

abbrev pub user_schema : Schema UserRecord
user_schema = record { key = λ r. r.id; unique = λ r. some r.email }

abbrev pub duplicate_email : Thrown
duplicate_email =
    app_error
      (record { code = "DUPLICATE_EMAIL"; message = "Email already exists"; status_code = 409 })

abbrev pub user_not_found : Thrown
user_not_found =
    app_error (record { code = "USER_NOT_FOUND"; message = "User not found"; status_code = 404 })

-- `mapRow`
abbrev pub map_row : UserRecord → UserDto
map_row row = record {
  id = row.id;
  name = row.name;
  email = row.email;
  created_at = row.created_at;
  updated_at = row.updated_at;
}

-- JavaScript's `trim` and `toLowerCase`.
pub record Spelling : Type 0 where
  pub trim : ℕ → ℕ
  pub to_lower_case : ℕ → ℕ

-- `email.trim().toLowerCase()`
abbrev pub clean : Spelling → ℕ → ℕ
clean s email = s.to_lower_case (s.trim email)

-- The row that `user.create` inserts.
abbrev pub new_user : Spelling → ℕ → CreateUserInput → UserRecord
new_user s now input = record {
  id = input.id;
  name = input.name;
  email = clean s input.email;
  created_at = now;
  updated_at = now;
}

module _ (sql : Sql) (s : Spelling) where
  abbrev pub Users : Type 0
  Users = sql.Rows UserRecord

  -- `create` of the repository
  unfoldable pub create : ℕ → CreateUserInput → Users → Outcome Thrown UserDto × Users
  create now input db = elim (sql.create user_schema (new_user s now input) db) [
    | none ↦ (throws unique_violation, db)
    | some db' ↦ (ok (map_row (new_user s now input)), db')
  ]

  unfoldable pub find_by_id : ℕ → Users → Option UserDto
  find_by_id id db = Option.map map_row (sql.find user_schema id db)

  unfoldable pub find_by_email : ℕ → Users → Option UserDto
  find_by_email email db = Option.map map_row (sql.find_by user_schema (clean s email) db)

  -- `findAll`; `page` is at least 1 (`paginationQuerySchema`).
  unfoldable pub find_all : ℕ → ℕ → Users → List UserDto
  find_all page page_size db = map map_row (
      sql.find_many user_schema (λ u. true) (λ u. u.created_at) ((page - 1) * page_size) page_size
        db)

  -- The `catch` of `createUser`.
  abbrev pub translate : Thrown → Thrown
  translate unique_violation = duplicate_email
  translate e = e

  -- The second half of `createUser`, which other requests may come before.
  unfoldable pub insert_user : ℕ → ℕ → NewUser → Users → Outcome Thrown UserDto × Users
  insert_user now id input db =
      let (r, db') =
        create now (record { id = id; name = input.name; email = clean s input.email }) db in
      elim r [ throws e ↦ (throws (translate e), db') | ok user ↦ (ok user, db') ]

  -- `createUser`
  unfoldable pub create_user : ℕ → ℕ → NewUser → Users → Outcome Thrown UserDto × Users
  create_user now id input db = elim (find_by_email (clean s input.email) db) [
    | some existing ↦ (throws duplicate_email, db)
    | none ↦ insert_user now id input db
  ]

  -- `getUserById`
  unfoldable pub get_user_by_id : ℕ → Users → Outcome Thrown UserDto
  get_user_by_id id db = elim (find_by_id id db) [
    | none ↦ throws user_not_found
    | some user ↦ ok user
  ]

  -- `listUsers`
  unfoldable pub list_users : ℕ → ℕ → Users → List UserDto
  list_users page page_size db = find_all page page_size db
