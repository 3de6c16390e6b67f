-- ===== src/Event/Events/Refusals.antt =====
-- Calls of the event service that throw.
use event_booking_system_mic.Event.Events.{update, delete_event, update_event, resize, fits}
use event_booking_system_mic.Event.Events.Update.{delete-Deletes, resize_id, Deletes}
use event_booking_system_mic.Sql.{Sql}
use event_booking_system_mic.Event.Cache.{EventCache}
use event_booking_system_mic.Event.Events.{
  create_event, get_event_by_id, update_event, delete_event, update, create, UpdateEventInput,
  EventWorld,
}
use event_booking_system_mic.Common.{
  ℕ, Outcome, arith, ◌≡◌, ok, throws, inl, inr, some, ◌⊎◌, none, Option-cases, eq_refl, ==_iff,
  Bool-cases,
}
use event_booking_system_mic.Contracts.{UuidText}
use event_booking_system_mic.Event.Types.{event_schema, EventDb, EventDto, map_row}
use event_booking_system_mic.Errors.{Thrown, capacity_below_reserved_seats}
use event_booking_system_mic.Event.Inventory.Rows.{find-update_event, first-update_event}

module _ (sql : Sql) (cache : EventCache) where
  -- No event was written.
  abbrev pub EventsKept : EventWorld sql cache → EventWorld sql cache → Type 0
  EventsKept before after =
      (j : ℕ) → sql.find event_schema j after.db.events ≡ sql.find event_schema j before.db.events

  -- What a call that throws has left.
  abbrev pub KeepsEvents :
      {A : Type 0} → EventWorld sql cache → Outcome Thrown A × EventWorld sql cache → Type 0
  KeepsEvents w (ok _, after) = Unit
  KeepsEvents w (throws _, after) = EventsKept w after

  pub create_event-KeepsEvents :
      (now id : ℕ) (input : UpdateEventInput) (w : EventWorld sql cache)
      → KeepsEvents w (create_event sql cache now id input w)
  unfolding create_event create
  create_event-KeepsEvents now id input w = ground arith

  pub get_event_by_id-KeepsEvents :
      (ttl : ℕ) (id : UuidText) (w : EventWorld sql cache)
      → KeepsEvents w (get_event_by_id sql cache ttl id w)
  unfolding get_event_by_id
  get_event_by_id-KeepsEvents ttl id w = ground arith

  update-Refused :
      (now id : ℕ) (input : UpdateEventInput) (db : EventDb sql)
      → ((dto : EventDto) × ((update sql now id input db).0 ≡ ok (some dto)))
        ⊎ ((((update sql now id input db).0 ≡ ok none)
              ⊎ ((update sql now id input db).0 ≡ throws capacity_below_reserved_seats))
            × ((j : ℕ)
                → sql.find event_schema j (update sql now id input db).1.events
                  ≡ sql.find event_schema j db.events))
  unfolding update
  update-Refused now id input db =
      let f = resize now input in
      let found =
        λ (j : ℕ). find-update_event sql id (fits input) f db (resize_id sql now input) j in
      let row = first-update_event sql id (fits input) f db in
      elim (Option-cases (sql.find event_schema id db.events)) [
        | inl g ↦ inr (
          inl (ground (arith, g, row, found id, eq_refl id)),
          (λ j. ground (arith, g, row, found j, ==_iff j id)),
        )
        | inr (e, g) ↦ elim (Bool-cases (fits input e)) [
          | inl b ↦ inl (map_row (f e), ground (arith, g, b, row))
          | inr b ↦ inr (
            inr (ground (arith, g, b, row, found id, eq_refl id)),
            (λ j. ground (arith, g, b, row, found j, ==_iff j id)),
          )
        ]
      ]

  pub update_event-KeepsEvents :
      (now : ℕ) (id : UuidText) (input : UpdateEventInput) (w : EventWorld sql cache)
      → KeepsEvents w (update_event sql cache now id input w)
  unfolding update_event
  update_event-KeepsEvents now id input w = elim (update-Refused now id.value input w.db) [
    | inl (dto, e) ↦ rw (update_event, e) tt
    | inr (inl e, kept) ↦ rw (update_event, e) kept
    | inr (inr e, kept) ↦ rw (update_event, e) kept
  ]

  pub delete_event-KeepsEvents :
      (id : UuidText) (w : EventWorld sql cache) → KeepsEvents w (delete_event sql cache id w)
  unfolding delete_event
  delete_event-KeepsEvents id w = elim (delete-Deletes sql id.value w.db) [
    | Deletes.absent _ e kept ↦ rw (delete_event, e) kept
    | Deletes.refused _ _ _ e kept ↦ rw (delete_event, e) kept
    | Deletes.gone _ _ _ e _ ↦ rw (delete_event, e) tt
  ]
