-- ===== src/Event/Cache.antt =====
-- `EventCache` and `InMemoryEventCache`, services/event-service/src/infrastructure/cache/
-- event-cache.ts. A cache is keyed by the text of an event's id, as the request spelt it.
use event_booking_system_mic.Common.{
  ◌∷◌, ◌≡◌, List, ok, Outcome, Option, if◌then◌else◌, none, arith, some, ℕ, [], ==_iff,
}
use event_booking_system_mic.Contracts.{UuidText, text_eq}
use event_booking_system_mic.Event.Types.{EventDto}
use event_booking_system_mic.Errors.{Thrown}

-- `EventCache`: a read or a write may throw.
pub record EventCache : Type 1 where
  pub State : Type 0
  pub get : UuidText → State → Outcome Thrown (Option EventDto)
  pub set : UuidText → EventDto → ℕ → State → Outcome Thrown State
  pub del : UuidText → State → Outcome Thrown State

-- The `Map` of `InMemoryEventCache`.
abbrev pub Store : Type 0
Store = List (UuidText × EventDto)

unfoldable pub lookup : UuidText → Store → Option EventDto
lookup id [] = none
lookup id (x ∷ xs) = if text_eq id x.0 then some x.1 else lookup id xs

unfoldable pub remove : UuidText → Store → Store
remove id [] = []
remove id (x ∷ xs) = let rest = remove id xs in if text_eq id x.0 then rest else x ∷ rest

unfoldable pub insert : UuidText → EventDto → Store → Store
unfolding remove
insert id event s = (id, event) ∷ remove id s

abbrev pub in_memory : EventCache
in_memory = record {
  State = Store;
  get = λ id s. ok (lookup id s);
  set = λ id event ttl s. ok (insert id event s);
  del = λ id s. ok (remove id s);
}

pub lookup-remove :
    (id other : UuidText) (s : Store)
    → lookup other (remove id s) ≡ (if text_eq other id then none else lookup other s)
unfolding lookup remove
lookup-remove id other [] = ground arith
lookup-remove id other (x ∷ xs) = ground (
  arith,
  lookup-remove id other xs,
  ==_iff other.value id.value,
  ==_iff id.value x.0.value,
  ==_iff other.value x.0.value,
  ==_iff other.spelling id.spelling,
  ==_iff id.spelling x.0.spelling,
  ==_iff other.spelling x.0.spelling,
)

pub lookup-insert :
    (id : UuidText) (event : EventDto) (other : UuidText) (s : Store)
    → lookup other (insert id event s) ≡ (if text_eq other id then some event else lookup other s)
unfolding lookup insert
lookup-insert id event other s = ground (arith, lookup-remove id other s)
