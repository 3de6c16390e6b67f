-- ===== src/Event/RedisCache.antt =====
-- `RedisEventCache`, services/event-service/src/infrastructure/cache/redis.client.ts, and
-- `eventCacheKey` of cache-keys.ts. The client of Redis, `JSON.stringify` and `JSON.parse` are
-- parameters; that an entry expires is the client's doing.
pub mod Laws
use Prim.Native.String.{String}
use Prim.Native.String.{◌++◌ as str_append}
use text.Mathlib.Text.{◌==◌ as str_eq}
use event_booking_system_mic.Common.{Outcome, Option, ℕ, throws, ok, some, if◌then◌else◌, none}
use event_booking_system_mic.Event.Cache.{EventCache}
use event_booking_system_mic.Contracts.{UuidText}
use event_booking_system_mic.Errors.{Thrown}
use event_booking_system_mic.Event.Types.{EventDto}

-- GET, SET with EX, and DEL.
pub record RedisClient : Type 1 where
  pub Store : Type 0
  pub get : String → Store → Outcome Thrown (Option String)
  pub set : String → String → ℕ → Store → Outcome Thrown Store
  pub del : String → Store → Outcome Thrown Store

-- The texts of ids and events.
pub record EventTexts : Type 0 where
  pub write_id : UuidText → String
  pub stringify : EventDto → String
  pub json_parse : String → Outcome Thrown EventDto

-- `eventCacheKey`
abbrev pub event_cache_key : EventTexts → UuidText → String
event_cache_key texts id = str_append "event:" (texts.write_id id)

-- `value ? JSON.parse(value) : null`; the empty text counts as no value.
unfoldable pub cached_event :
    EventTexts → Outcome Thrown (Option String) → Outcome Thrown (Option EventDto)
cached_event texts (throws e) = throws e
cached_event texts (ok none) = ok none
cached_event texts (ok (some value)) =
    if str_eq value ""
    then ok none
    else elim (texts.json_parse value) [ throws e ↦ throws e | ok event ↦ ok (some event) ]

-- `RedisEventCache`
abbrev pub redis_event_cache : RedisClient → EventTexts → EventCache
redis_event_cache client texts = record {
  State = client.Store;
  get = λ id s. cached_event texts (client.get (event_cache_key texts id) s);
  set = λ id event ttl s. client.set (event_cache_key texts id) (texts.stringify event) ttl s;
  del = λ id s. client.del (event_cache_key texts id) s;
}
