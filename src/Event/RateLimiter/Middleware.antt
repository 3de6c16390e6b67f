-- ===== src/Event/RateLimiter/Middleware.antt =====
-- services/event-service/src/middleware/rate-limiter.ts: the script that Redis runs, `respond`, and
-- the middleware that `createRedisRateLimiter` returns. Redis is a parameter, with the commands of
-- the script.
use event_booking_system_mic.Event.RateLimiter.{Consumed, consume_fallback, Entry, is_rejected}
use event_booking_system_mic.Common.{
  Option, ℕ, none, List, Bool, suc, if◌then◌else◌, some, ◌==◌, ◌-◌, ◌+◌,
}
use event_booking_system_mic.Contracts.Json.{Number}
use event_booking_system_mic.Errors.{Thrown}

-- The commands INCR, EXPIRE and TTL of Redis on one key, `isOpen` of its client, and how a call of
-- `eval` ends where it does not end with the script's result.
pub record Redis : Type 1 where
  pub Store : Type 0
  pub incr : ℕ → Store → ℕ × Store
  pub expire : ℕ → ℕ → Store → Store
  pub ttl : ℕ → Store → Number
  pub is_open : Store → Bool
  pub refuses : Store → Option Thrown

pub record RateLimiterOptions : Type 0 where
  pub window_seconds : ℕ
  pub max_requests : ℕ
  pub max_fallback_entries : ℕ

-- The headers that `respond` sets, and the body of its answer 429.
pub record LimitHeaders : Type 0 where
  pub limit : ℕ
  pub remaining : ℕ
  pub reset : ℕ

pub record TooManyRequests : Type 0 where
  pub max_requests : ℕ
  pub window_seconds : ℕ
  pub retry_after : ℕ

-- `respond`: the rejection is `none` where the request goes on.
unfoldable pub respond : RateLimiterOptions → Consumed → LimitHeaders × Option TooManyRequests
respond options c = (
  record {
    limit = options.max_requests;
    remaining = options.max_requests - c.requests;
    reset = c.reset_at;
  },
  if is_rejected options.max_requests c
      then some (record {
        max_requests = options.max_requests;
        window_seconds = options.window_seconds;
        retry_after = c.ttl;
      })
      else none,
)

module _ (redis : Redis) where
  pub record LimiterState : Type 0 where
    pub client : Option redis.Store
    pub in_memory_store : List Entry

  -- `FIXED_WINDOW_SCRIPT`
  unfoldable pub fixed_window_script : ℕ → ℕ → redis.Store → (ℕ × Number) × redis.Store
  fixed_window_script window key s =
      let (count, counted) = redis.incr key s in
      let limited = if count == 1 then redis.expire key window counted else counted in
      ((count, redis.ttl key limited), limited)

  -- `Number(result[1]) > 0 ? Number(result[1]) : windowSeconds`
  abbrev positive_or : ℕ → Number → ℕ
  positive_or window (Number.nat (suc n)) = suc n
  positive_or window _ = window

  unfoldable pub fall_back : RateLimiterOptions → ℕ → ℕ → LimiterState → Consumed × LimiterState
  fall_back options key now s =
      let (c, store) =
        consume_fallback options.window_seconds options.max_fallback_entries key now
          s.in_memory_store in
      (c, record s { in_memory_store = store })

  -- What the middleware counts, at the seconds `now`.
  unfoldable pub consume : RateLimiterOptions → ℕ → ℕ → LimiterState → Consumed × LimiterState
  consume options key now s = elim s.client [
    | none ↦ fall_back options key now s
    | some store ↦
        if redis.is_open store
        then elim (redis.refuses store) [
          | some e ↦ fall_back options key now s
          | none ↦
              let ((count, left), store') = fixed_window_script options.window_seconds key store in
              let ttl = positive_or options.window_seconds left in
              (
                record { requests = count; ttl = ttl; reset_at = now + ttl },
                record s { client = some store' },
              )
        ]
        else fall_back options key now s
  ]

  -- The middleware: what `respond` does with the count.
  unfoldable pub rate_limit :
      RateLimiterOptions
      → ℕ
      → ℕ
      → LimiterState
      → (LimitHeaders × Option TooManyRequests) × LimiterState
  rate_limit options key now s = let (c, s') = consume options key now s in (respond options c, s')
