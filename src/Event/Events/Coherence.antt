-- ===== src/Event/Events/Coherence.antt =====
-- What a reader may see through the cache in memory where ids are spelt in two ways.
use event_booking_system_mic.Common.{◌∙◌, ap, ◌≡◌, ℕ, some, ok, arith, false}
use event_booking_system_mic.Sql.{Sql}
use event_booking_system_mic.Event.Events.{
  get_event_by_id, EventWorld, get_cached, set_cached, update_event, UpdateEventInput,
  invalidate_cached,
}
use event_booking_system_mic.Event.Cache.{in_memory, lookup, lookup-remove}
use event_booking_system_mic.Contracts.{UuidText, text_eq}
use event_booking_system_mic.Event.Types.{EventDto}

module _ (sql : Sql) where
  get_event_by_id-hit :
      (ttl : ℕ) (id : UuidText) (w : EventWorld sql in_memory) {event : EventDto}
      → lookup id w.cached ≡ some event
      → get_event_by_id sql in_memory ttl id w ≡ (ok event, w)
  unfolding get_event_by_id get_cached set_cached
  get_event_by_id-hit ttl id w e = ground (arith, e)

  update_event-cached :
      (now : ℕ) (id other : UuidText) (input : UpdateEventInput) (w : EventWorld sql in_memory)
      → text_eq other id ≡ false
      → lookup other (update_event sql in_memory now id input w).1.cached ≡ lookup other w.cached
  unfolding update_event invalidate_cached
  update_event-cached now id other input w n = ground (arith, n, lookup-remove id other w.cached)

  -- A change that comes under one spelling of the id leaves what is cached under another: a reader who
  -- spells it that way gets the old event.
  pub update_event_stale :
      (now ttl : ℕ) (id other : UuidText) (input : UpdateEventInput) (w : EventWorld sql in_memory)
      {event : EventDto}
      → lookup other w.cached ≡ some event
      → text_eq other id ≡ false
      → (get_event_by_id sql in_memory ttl other (update_event sql in_memory now id input w).1).0
        ≡ ok event
  update_event_stale now ttl id other input w {event} e n =
      ap (λ x. x.0)
        (get_event_by_id-hit ttl other (update_event sql in_memory now id input w).1
          (update_event-cached now id other input w n ∙ e))
