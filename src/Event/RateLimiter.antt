-- ===== src/Event/RateLimiter.antt =====
-- services/event-service/src/middleware/rate-limiter.ts where Redis cannot be asked: the `Map` of
-- `consumeFallback`, in the order of insertion, and the decision of `respond`. A key is a number, and
-- instants are seconds. `Middleware` is the rest of the file.
use event_booking_system_mic.Common.{
  ◌∷◌, ◌++◌, ◌+◌, ◌-◌, ◌==◌, ℕ, Bool, List, suc, Option, not, zero, if◌then◌else◌, some, none, leb,
  [], length, drop,
}
pub mod Window
pub mod Admission
pub mod Middleware

pub record Entry : Type 0 where
  pub key : ℕ
  pub count : ℕ
  pub reset_at : ℕ

-- What `consumeFallback` returns.
pub record Consumed : Type 0 where
  pub requests : ℕ
  pub ttl : ℕ
  pub reset_at : ℕ

unfoldable pub find_entry : ℕ → List Entry → Option Entry
find_entry key [] = none
find_entry key (e ∷ es) = if key == e.key then some e else find_entry key es

-- The loop that deletes what has expired.
unfoldable pub expire : ℕ → List Entry → List Entry
expire now [] = []
expire now (e ∷ es) = let rest = expire now es in if leb e.reset_at now then rest else e ∷ rest

-- `entry.count += 1`, on the entry of a key
unfoldable pub bump : ℕ → List Entry → List Entry
bump key [] = []
bump key (e ∷ es) =
    let rest = bump key es in
    if key == e.key then record e { count = e.count + 1 } ∷ es else e ∷ rest

abbrev pub at_least_one : ℕ → ℕ
at_least_one zero = 1
at_least_one (suc n) = suc n

-- The entries that stay where a new one is added: the oldest goes if there are too many.
abbrev pub make_room : ℕ → List Entry → List Entry
make_room max_entries es = if leb max_entries (length es) then drop 1 es else es

unfoldable pub consume_fallback : ℕ → ℕ → ℕ → ℕ → List Entry → Consumed × List Entry
consume_fallback window_seconds max_entries key now store =
    let live = expire now store in
    elim (find_entry key live) [
      | some e ↦ (
        record {
          requests = e.count + 1;
          ttl = at_least_one (e.reset_at - now);
          reset_at = e.reset_at;
        },
        bump key live,
      )
      | none ↦ (
        record {
          requests = 1;
          ttl = at_least_one (now + window_seconds - now);
          reset_at = now + window_seconds;
        },
        make_room max_entries live
            ++ (record { key = key; count = 1; reset_at = now + window_seconds } ∷ []),
      )
    ]

-- `respond`: whether the request is rejected.
unfoldable pub is_rejected : ℕ → Consumed → Bool
is_rejected max_requests c = not (leb c.requests max_requests)
