-- ===== src/Event/RedisCache/Laws.antt =====
-- `RedisEventCache` as a cache of the service: what the service relies on holds of it, from what Redis
-- and JSON are documented to do.
use Prim.Native.String.{String}
use text.Mathlib.Text.{◌==◌ as str_eq}
use event_booking_system_mic.Common.{
  ◌≡◌, ◌⊎◌, ℕ, some, none, throws, ok, inl, inr, arith, Bool-cases, Outcome-cases, Option, Outcome,
  true, ap, sym, ◌∙◌, ==_iff, refl,
}
use event_booking_system_mic.Event.RedisCache.{
  RedisClient, EventTexts, cached_event, event_cache_key, redis_event_cache,
}
use event_booking_system_mic.Event.Events.Reads.{IsCache}
use event_booking_system_mic.Contracts.{UuidText, text_eq}
use event_booking_system_mic.Event.Types.{EventDto}
use event_booking_system_mic.Errors.{Thrown}

-- SET writes one key, and DEL leaves no entry under its key; an entry may expire at any time.
pub record IsRedis (client : RedisClient) : Type 0 where
  pub set_key :
      (k v : String) (ttl : ℕ) (s : client.Store) {s' : client.Store} (j : String) {x : String}
      → client.set k v ttl s ≡ ok s'
      → client.get j s' ≡ ok (some x)
      → ((j ≡ k) × (x ≡ v)) ⊎ (client.get j s ≡ ok (some x))
  pub del_key :
      (k : String) (s : client.Store) {s' : client.Store} (j : String) {x : String}
      → client.del k s ≡ ok s'
      → client.get j s' ≡ ok (some x)
      → (¬ (j ≡ k)) × (client.get j s ≡ ok (some x))

-- Two texts of ids have two keys, and what is written is parsed as it was.
pub record AreTexts (texts : EventTexts) : Type 0 where
  pub keys :
      (i j : UuidText) → event_cache_key texts i ≡ event_cache_key texts j → text_eq i j ≡ true
  pub same_key :
      (i j : UuidText) → text_eq i j ≡ true → event_cache_key texts i ≡ event_cache_key texts j
  pub parsed : (e : EventDto) → texts.json_parse (texts.stringify e) ≡ ok e

cached_event-parsed :
    (texts : EventTexts) (o : Outcome Thrown (Option String)) {e : EventDto}
    → cached_event texts o ≡ ok (some e)
    → (x : String) × (o ≡ ok (some x)) × (texts.json_parse x ≡ ok e)
unfolding cached_event
cached_event-parsed texts (throws t) h = absurd (ground arith)
cached_event-parsed texts (ok none) h = absurd (ground arith)
cached_event-parsed texts (ok (some x)) h = elim (Bool-cases (str_eq x "")) [
  | inl b ↦ absurd (ground (arith, b, h))
  | inr b ↦ elim (Outcome-cases (texts.json_parse x)) [
    | inl (e', p) ↦ (x, refl, ground (arith, b, p, h))
    | inr (t, p) ↦ absurd (ground (arith, b, p, h))
  ]
]

text_eq_value : (i j : UuidText) → text_eq i j ≡ true → i.value ≡ j.value
text_eq_value i j h = ground (arith, h, ==_iff i.value j.value)

-- Where Redis and JSON do as they are documented to, `RedisEventCache` is a cache as the service relies
-- on it.
pub redis_event_cache-IsCache :
    (client : RedisClient) (texts : EventTexts)
    → IsRedis client
    → AreTexts texts
    → IsCache (redis_event_cache client texts)
redis_event_cache-IsCache client texts redis laws = record {
  set_entry = λ id event ttl s other h g.
      let (x, o, p) = cached_event-parsed texts _ g in
      elim (redis.set_key (event_cache_key texts id) (texts.stringify event) ttl s
        (event_cache_key texts other) {x = x} h o) [
          | inl (k, v) ↦ inl (
            text_eq_value other id (laws.keys other id k),
            ground (arith, laws.parsed event, v, p),
          )
          | inr old ↦ inr (ap (cached_event texts) (old ∙ sym o) ∙ g)
        ];
  del_entry = λ id s other h g.
      let (x, o, p) = cached_event-parsed texts _ g in
      let (differs, old) =
        redis.del_key (event_cache_key texts id) s (event_cache_key texts other) {x = x} h o in
      (
        elim (Bool-cases (text_eq other id)) [
          | inl same ↦ absurd (differs (laws.same_key other id same))
          | inr n ↦ n
        ],
        ap (cached_event texts) (old ∙ sym o) ∙ g,
      );
}
