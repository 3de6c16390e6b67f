-- ===== src/Http/Zod.antt =====
-- The request schemas' building blocks: those of zod are parameters, with the issues that they
-- report, and `z.object`, which reports the issues of all its keys in their order, is `both`. Also
-- packages/contracts/src/pagination.ts.
use Prim.Native.String.{String}
use event_booking_system_mic.Common.{◌++◌, Outcome, ℕ, Option, List, some, ok, throws, none}
use event_booking_system_mic.Contracts.Json.{object, Json, Properties, property_of}
use event_booking_system_mic.Errors.{Thrown, zod_error}
use event_booking_system_mic.Contracts.{UuidText}

-- What `safeParse` makes of a value: the messages of its issues, or what it stands for.
abbrev pub Parsed : Type 0 → Type 0
Parsed A = Outcome (List String) A

-- The schemas of zod that the services use; a text is the message that the schema was given.
pub record Zod : Type 0 where
  pub uuid : String → Option Json → Parsed UuidText  -- z.string().uuid(m)
  pub positive_int : String → Option Json → Parsed ℕ  -- z.number().int().positive(m)
  pub trimmed : String → Option Json → Parsed String  -- z.string().trim().min(1, m)
  pub datetime : String → Option Json → Parsed ℕ  -- z.string().datetime(m)
  pub email : String → String → Option Json → Parsed ℕ
  -- z.string().trim().min(1, m).email(m')
  pub coerced_positive : Option ℕ → ℕ → Option Json → Parsed ℕ
      -- z.coerce.number().int().positive(), its maximum and default
  pub no_object : Option Json → List String

-- Two keys of an object.
unfoldable pub both : {A B : Type 0} → Parsed A → Parsed B → Parsed (A × B)
both (ok a) (ok b) = ok (a, b)
both (ok a) (throws ms) = throws ms
both (throws ms) (ok b) = throws ms
both (throws ms) (throws ns) = throws (ms ++ ns)

-- `parse`
abbrev pub parse : {A : Type 0} → Parsed A → Outcome Thrown A
parse (ok a) = ok a
parse (throws ms) = throws (zod_error ms)

-- The keys of a value that has to be an object.
abbrev pub keys : {A : Type 0} → Zod → Option Json → (Properties → Parsed A) → Parsed A
keys zod (some (object ps)) k = k ps
keys zod v k = throws (zod.no_object v)

pub record Pagination : Type 0 where
  pub page : ℕ
  pub page_size : ℕ

-- `paginationQuerySchema`
unfoldable pub pagination_query_schema : Zod → Json → Parsed Pagination
pagination_query_schema zod query = keys zod (some query) (λ ps.
    elim (both (zod.coerced_positive none 1 (property_of "page" ps))
      (zod.coerced_positive (some 100) 20 (property_of "pageSize" ps))) [
        | ok (page, page_size) ↦ ok (record { page = page; page_size = page_size })
        | throws ms ↦ throws ms
      ])

-- A schema with one key, an id.
unfoldable pub id_param_schema : Zod → String → String → Json → Parsed UuidText
id_param_schema zod key message params =
    keys zod (some params) (λ ps. zod.uuid message (property_of key ps))
