-- ===== src/Event/Events/Reads.antt =====
-- What a reader sees through a cache, whatever the cache is and also where its calls fail.
use event_booking_system_mic.Common.{
  ◌≡◌, ◌⊎◌, ℕ, some, none, throws, ok, Option-cases, Outcome-cases, inl, inr, arith, ==_iff, Option,
  Outcome, false, refl, ap, sym,
}
use event_booking_system_mic.Sql.{Sql}
use event_booking_system_mic.Event.Events.{
  get_event_by_id, EventWorld, get_cached, set_cached, find_by_id, event_not_found,
}
use event_booking_system_mic.Event.Cache.{EventCache, in_memory, lookup-insert, lookup-remove}
use event_booking_system_mic.Contracts.{UuidText, text_eq}
use event_booking_system_mic.Event.Types.{EventDto}
use event_booking_system_mic.Errors.{Thrown}

-- What the service relies on of a cache: a write adds no entry but its own, and a deletion that ends
-- well leaves none under its key. An entry may be lost at any time. `InMemoryEventCache` is such a cache, and
-- so is `RedisEventCache` (`Event.RedisCache.Laws`).
pub record IsCache (cache : EventCache) : Type 0 where
  pub set_entry :
      (id : UuidText) (event : EventDto) (ttl : ℕ) (s : cache.State) {s' : cache.State}
      (other : UuidText) {e : EventDto}
      → cache.set id event ttl s ≡ ok s'
      → cache.get other s' ≡ ok (some e)
      → ((other.value ≡ id.value) × (e ≡ event)) ⊎ (cache.get other s ≡ ok (some e))
  pub del_entry :
      (id : UuidText) (s : cache.State) {s' : cache.State} (other : UuidText) {e : EventDto}
      → cache.del id s ≡ ok s'
      → cache.get other s' ≡ ok (some e)
      → (text_eq other id ≡ false) × (cache.get other s ≡ ok (some e))

pub in_memory-IsCache : IsCache in_memory
in_memory-IsCache = record {
  set_entry = λ id event ttl s other h g.
      ground (arith, h, g, lookup-insert id event other s, ==_iff other.value id.value);
  del_entry = λ id s other h g. ground (arith, h, g, lookup-remove id other s);
}

module _ (sql : Sql) (cache : EventCache) where
  -- What is cached under a text of an id is what the database holds.
  abbrev pub IsCoherentAt : EventWorld sql cache → UuidText → Type 0
  IsCoherentAt w id =
      (event : EventDto)
      → cache.get id w.cached ≡ ok (some event)
      → find_by_id sql id.value w.db ≡ some event

  -- What a reader is answered for what the database holds.
  abbrev pub read : Option EventDto → Outcome Thrown EventDto
  read none = throws event_not_found
  read (some event) = ok event

  get_cached-found :
      (id : UuidText) (s : cache.State) {event : EventDto}
      → get_cached sql cache id s ≡ some event
      → cache.get id s ≡ ok (some event)
  unfolding get_cached
  get_cached-found id s h = elim (Outcome-cases (cache.get id s)) [
    | inl (found, e) ↦ ground (arith, e, h)
    | inr (t, e) ↦ absurd (ground (arith, e, h))
  ]

  get_event_by_id-hit :
      (ttl : ℕ) (id : UuidText) (w : EventWorld sql cache) {event : EventDto}
      → get_cached sql cache id w.cached ≡ some event
      → get_event_by_id sql cache ttl id w ≡ (ok event, w)
  unfolding get_event_by_id
  get_event_by_id-hit ttl id w e = ground (arith, e)

  get_event_by_id-missing :
      (ttl : ℕ) (id : UuidText) (w : EventWorld sql cache)
      → get_cached sql cache id w.cached ≡ none
      → find_by_id sql id.value w.db ≡ none
      → get_event_by_id sql cache ttl id w ≡ (throws event_not_found, w)
  unfolding get_event_by_id
  get_event_by_id-missing ttl id w e f = ground (arith, e, f)

  get_event_by_id-fill :
      (ttl : ℕ) (id : UuidText) (w : EventWorld sql cache) {event : EventDto}
      → get_cached sql cache id w.cached ≡ none
      → find_by_id sql id.value w.db ≡ some event
      → get_event_by_id sql cache ttl id w
        ≡ (ok event, record w { cached = set_cached sql cache ttl id event w.cached })
  unfolding get_event_by_id
  get_event_by_id-fill ttl id w e f = ground (arith, e, f)

  set_cached-IsCoherent :
      (ttl : ℕ) (id : UuidText) (event : EventDto) (w : EventWorld sql cache)
      → IsCache cache
      → find_by_id sql id.value w.db ≡ some event
      → ((other : UuidText) → IsCoherentAt w other)
      → (other : UuidText)
      → IsCoherentAt (record w { cached = set_cached sql cache ttl id event w.cached }) other
  unfolding set_cached
  set_cached-IsCoherent ttl id event w laws f h other x g =
      elim (Outcome-cases (cache.set id event ttl w.cached)) [
        | inr (t, e) ↦ h other x (ground (arith, e, g))
        | inl (s', e) ↦
            elim (laws.set_entry id event ttl w.cached other {e = x} e (ground (arith, e, g))) [
              | inl (v, same) ↦ ground (arith, f, v, same)
              | inr old ↦ h other x old
            ]
      ]

  -- Where what is cached, under any text of any id, is what the database holds: a reader is answered
  -- what the database holds, or the error for a missing event, also where the cache fails to answer or
  -- to take the entry; everything cached is then still what the database holds, and the database has
  -- not changed.
  pub get_event_by_id_reads :
      (ttl : ℕ) (id : UuidText) (w : EventWorld sql cache)
      → IsCache cache
      → ((other : UuidText) → IsCoherentAt w other)
      → let (r, w') = get_event_by_id sql cache ttl id w in
        (r ≡ read (find_by_id sql id.value w.db))
        × ((other : UuidText) → IsCoherentAt w' other)
        × (w'.db ≡ w.db)
  get_event_by_id_reads ttl id w laws h = elim (Option-cases (get_cached sql cache id w.cached)) [
    | inl e ↦ elim (Option-cases (find_by_id sql id.value w.db)) [
      | inl f ↦ rw (get_event_by_id-missing ttl id w e f) (ap read (sym f), h, refl)
      | inr (event, f) ↦
          rw (get_event_by_id-fill ttl id w e f)
            (ap read (sym f), set_cached-IsCoherent ttl id event w laws f h, refl)
    ]
    | inr (event, e) ↦
        rw (get_event_by_id-hit ttl id w e)
          (ap read (sym (h id event (get_cached-found id w.cached e))), h, refl)
  ]
