-- ===== src/Event/Events/Invalidation.antt =====
-- What an update of an event leaves in the cache, whatever the cache is and also where the deletion of
-- its entry fails.
use event_booking_system_mic.Common.{
  ◌≡◌, ◌⊎◌, ◌==◌, ℕ, some, none, throws, ok, is_ok, Outcome-cases, Bool-cases, inl, inr, arith,
  ==_iff, Option, Outcome, false, true, refl, ◌∙◌, Bool,
}
use event_booking_system_mic.Sql.{Sql}
use event_booking_system_mic.Event.Events.{
  EventWorld, find_by_id, update_event, update, UpdateEventInput, resize, invalidate_cached, fits,
}
use event_booking_system_mic.Event.Cache.{EventCache}
use event_booking_system_mic.Event.Events.Reads.{IsCache, IsCoherentAt}
use event_booking_system_mic.Contracts.{UuidText, text_eq}
use event_booking_system_mic.Event.Types.{EventDto, EventDb, event_schema}
use event_booking_system_mic.Errors.{Thrown}

module _ (sql : Sql) (cache : EventCache) where
  abbrev is_updated : Outcome Thrown (Option EventDto) → Bool
  is_updated (throws e) = false
  is_updated (ok none) = false
  is_updated (ok (some event)) = true

  module _ (now : ℕ) (id : UuidText) (input : UpdateEventInput) (w : EventWorld sql cache) where
    abbrev updated_db : EventDb sql
    updated_db = (update sql now id.value input w.db).1

    find_by_id-update :
        (j : ℕ) → (j == id.value) ≡ false → find_by_id sql j updated_db ≡ find_by_id sql j w.db
    unfolding find_by_id update resize
    find_by_id-update j h = ground (
      arith,
      h,
      sql.find-update event_schema id.value (fits input) (resize now input) w.db.events j
          (λ e. refl),
    )

    find_by_id-refused :
        (j : ℕ)
        → is_updated (update sql now id.value input w.db).0 ≡ false
        → find_by_id sql j updated_db ≡ find_by_id sql j w.db
    unfolding find_by_id update resize
    find_by_id-refused j h = ground (
      arith,
      h,
      sql.find-update event_schema id.value (fits input) (resize now input) w.db.events j
          (λ e. refl),
      sql.update-returned event_schema id.value (fits input) (resize now input) w.db.events,
      ==_iff j id.value,
    )

    update_event-refused :
        is_updated (update sql now id.value input w.db).0 ≡ false
        → (update_event sql cache now id input w).1 ≡ record w { db = updated_db }
    unfolding update_event
    update_event-refused h = ground (arith, h)

    update_event-done :
        is_updated (update sql now id.value input w.db).0 ≡ true
        → (update_event sql cache now id input w).1
          ≡ record w { db = updated_db; cached = invalidate_cached sql cache id w.cached }
    unfolding update_event
    update_event-done h = ground (arith, h)

    invalidate_cached-found :
        (laws : IsCache cache) (other : UuidText) (event : EventDto)
        → cache.get other (invalidate_cached sql cache id w.cached) ≡ ok (some event)
        → (cache.get other w.cached ≡ ok (some event))
          × ((is_ok (cache.del id w.cached) ≡ true) → text_eq other id ≡ false)
    unfolding invalidate_cached
    invalidate_cached-found laws other event g = elim (Outcome-cases (cache.del id w.cached)) [
      | inr (t, e) ↦ (ground (arith, e, g), λ k. absurd (ground (arith, e, k)))
      | inl (s', e) ↦
          let (gone, old) = laws.del_entry id w.cached other {e = event} e (ground (arith, e, g)) in
          (old, λ k. gone)
    ]

    -- Where everything cached is what the database holds, and nothing is cached for the event under
    -- another text of its id than the request's: after an update, granted or refused, everything
    -- cached is what the database holds if the cache takes the deletion, and if it does not, at least
    -- everything under any other text.
    pub update_event-IsCoherent :
        IsCache cache
        → ((other : UuidText) → IsCoherentAt sql cache w other)
        → ((other : UuidText) (event : EventDto)
            → other.value ≡ id.value
            → cache.get other w.cached ≡ ok (some event)
            → text_eq other id ≡ true)
        → (other : UuidText) → (is_ok (cache.del id w.cached) ≡ true) ⊎ (text_eq other id ≡ false)
        → IsCoherentAt sql cache (update_event sql cache now id input w).1 other
    update_event-IsCoherent laws h alone other way event =
        elim (Bool-cases (is_updated (update sql now id.value input w.db).0)) [
          | inr kept ↦
              rw (update_event-refused kept)
                (λ g. find_by_id-refused other.value kept ∙ h other event g)
          | inl done ↦ rw (update_event-done done) (λ g.
              let (old, gone) = invalidate_cached-found laws other event g in
              let apart : text_eq other id ≡ false = elim way [ inl k ↦ gone k | inr n ↦ n ] in
              let differs : (other.value == id.value) ≡ false =
                ground (arith, apart, alone other event, old, ==_iff other.value id.value) in
              find_by_id-update other.value differs ∙ h other event old)
        ]
