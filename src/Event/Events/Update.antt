-- ===== src/Event/Events/Update.antt =====
-- `update` and `delete` of event.repository.ts, and the seats that are reserved.
use event_booking_system_mic.Common.{
  ◌-◌, ◌≡◌, ◌<◌, ◌≤◌, ◌==◌, ℕ, true, refl, Outcome, false, some, arith, if◌then◌else◌, Option, none,
  Option-cases, inl, ok, throws, eq_refl, ==_iff, inr, Bool-cases, ◌↔◌, ◌≢◌,
}
use event_booking_system_mic.Sql.{kept, Sql}
use event_booking_system_mic.Event.Types.{EventRecord, EventDb, event_schema, EventDto, map_row}
use event_booking_system_mic.Event.Events.{
  update, fits, delete, resize, UpdateEventInput, DeleteResult, is_unreserved,
}
use event_booking_system_mic.Errors.{Thrown, capacity_below_reserved_seats}
use event_booking_system_mic.Event.Inventory.Rows.{find-update_event, first-update_event}

abbrev pub reserved_seats : EventRecord → ℕ
reserved_seats e = e.total_seats - e.available_seats

module _ (sql : Sql) where
  -- What `update` may do: there is no such event; the capacity is below the reserved seats; or the event
  -- has the new capacity with the same seats reserved. Nothing else changes.
  pub data Resizes (id : ℕ) (input : UpdateEventInput) (before : EventDb sql)
      (end : Outcome Thrown (Option EventDto) × EventDb sql) : Type 0 where
    absent :
        sql.find event_schema id before.events ≡ none
        → end.0 ≡ ok none
        → ((j : ℕ) → sql.find event_schema j end.1.events ≡ sql.find event_schema j before.events)
        → Resizes id input before end
    below :
        (e : EventRecord)
        → sql.find event_schema id before.events ≡ some e
        → input.total_seats < reserved_seats e
        → end.0 ≡ throws capacity_below_reserved_seats
        → ((j : ℕ) → sql.find event_schema j end.1.events ≡ sql.find event_schema j before.events)
        → Resizes id input before end
    resized :
        (e e' : EventRecord)
        → sql.find event_schema id before.events ≡ some e
        → end.0 ≡ ok (some (map_row e'))
        → (e'.total_seats ≡ input.total_seats)
          × (e'.available_seats ≤ e'.total_seats)
          × (reserved_seats e' ≡ reserved_seats e)
        → ((j : ℕ)
            → sql.find event_schema j end.1.events
              ≡ (if j == id then some e' else sql.find event_schema j before.events))
        → Resizes id input before end

  pub resize_id :
      (now : ℕ) (input : UpdateEventInput) (e : EventRecord) → (resize now input e).id ≡ e.id
  unfolding resize
  resize_id now input e = refl

  fits-below :
      (input : UpdateEventInput) (e : EventRecord)
      → fits input e ≡ false
      → input.total_seats < reserved_seats e
  unfolding fits
  fits-below input e h = ground arith

  resize-keeps :
      (now : ℕ) (input : UpdateEventInput) (e : EventRecord)
      → e.available_seats ≤ e.total_seats
      → fits input e ≡ true
      → ((resize now input e).total_seats ≡ input.total_seats)
        × ((resize now input e).available_seats ≤ (resize now input e).total_seats)
        × (reserved_seats (resize now input e) ≡ reserved_seats e)
  unfolding resize fits
  resize-keeps now input e w f = (refl, ground arith, ground arith)

  -- Where the event, if there is one, has no more seats available than it has in all, `update` answers
  -- null for a missing event; or throws, where the new capacity is below the reserved seats; or gives
  -- the event the new capacity with as many seats reserved as before. No other event changes, and
  -- none at all in the first two cases.
  pub update-Resizes :
      (now id : ℕ) (input : UpdateEventInput) (db : EventDb sql)
      → ((e : EventRecord)
          → sql.find event_schema id db.events ≡ some e
          → e.available_seats ≤ e.total_seats)
      → Resizes id input db (update sql now id input db)
  unfolding update
  update-Resizes now id input db wf =
      let f = resize now input in
      let found = λ (j : ℕ). find-update_event sql id (fits input) f db (resize_id now input) j in
      let row = first-update_event sql id (fits input) f db in
      elim (Option-cases (sql.find event_schema id db.events)) [
        | inl g ↦
            Resizes.absent g (ground (arith, g, row, found id, eq_refl id))
              (λ j. ground (arith, g, row, found id, found j, eq_refl id, ==_iff j id))
        | inr (e, g) ↦ elim (Bool-cases (fits input e)) [
          | inl b ↦
              Resizes.resized e (f e) g (ground (arith, g, b, row, found id, eq_refl id))
                (resize-keeps now input e (wf e g) b)
                (λ j. ground (arith, g, b, row, found id, found j, eq_refl id, ==_iff j id))
          | inr b ↦
              Resizes.below e g (fits-below input e b)
                (ground (arith, g, b, row, found id, eq_refl id))
                (λ j. ground (arith, g, b, row, found id, found j, eq_refl id, ==_iff j id))
        ]
      ]

  find-delete_lem :
      (id : ℕ) (db : EventDb sql) (j : ℕ)
      → sql.find event_schema j (delete sql id db).1.events ≡ (
          if j == id
          then kept is_unreserved (sql.find event_schema id db.events)
          else sql.find event_schema j db.events)
  unfolding delete
  find-delete_lem id db j = ground (
    arith,
    sql.find-delete event_schema id is_unreserved db.events j,
    sql.delete-returned event_schema id is_unreserved db.events,
  )

  answer-delete :
      (id : ℕ) (db : EventDb sql)
      → (delete sql id db).0 ≡ elim (sql.find event_schema id db.events) [
        | none ↦ DeleteResult.not_found
        | some e ↦ if is_unreserved e then DeleteResult.deleted else DeleteResult.has_reservations
      ]
  unfolding delete
  answer-delete id db = ground (
    arith,
    sql.find-delete event_schema id is_unreserved db.events id,
    sql.delete-returned event_schema id is_unreserved db.events,
    eq_refl id,
  )

  -- What `delete` may do: there is no such event; a seat of it is reserved and it stays; or none is and
  -- it is gone. No other event changes.
  pub data Deletes (id : ℕ) (before : EventDb sql) (end : DeleteResult × EventDb sql) : Type 0 where
    absent :
        sql.find event_schema id before.events ≡ none
        → end.0 ≡ DeleteResult.not_found
        → ((j : ℕ) → sql.find event_schema j end.1.events ≡ sql.find event_schema j before.events)
        → Deletes id before end
    refused :
        (e : EventRecord)
        → sql.find event_schema id before.events ≡ some e
        → e.available_seats ≢ e.total_seats
        → end.0 ≡ DeleteResult.has_reservations
        → ((j : ℕ) → sql.find event_schema j end.1.events ≡ sql.find event_schema j before.events)
        → Deletes id before end
    gone :
        (e : EventRecord)
        → sql.find event_schema id before.events ≡ some e
        → e.available_seats ≡ e.total_seats
        → end.0 ≡ DeleteResult.deleted
        → ((j : ℕ)
            → sql.find event_schema j end.1.events
              ≡ (if j == id then none else sql.find event_schema j before.events))
        → Deletes id before end

  unreserved : (e : EventRecord) → (is_unreserved e ≡ true) ↔ (e.available_seats ≡ e.total_seats)
  unfolding is_unreserved
  unreserved e = ==_iff e.available_seats e.total_seats

  -- `delete` answers that there is no such event; or that it has reservations, where its available
  -- seats are not all its seats; or it removes the event, where they are. No other event changes, and
  -- none at all in the first two cases.
  pub delete-Deletes : (id : ℕ) (db : EventDb sql) → Deletes id db (delete sql id db)
  delete-Deletes id db =
      let found = λ (j : ℕ). find-delete_lem id db j in
      let answer = answer-delete id db in
      elim (Option-cases (sql.find event_schema id db.events)) [
        | inl g ↦
            Deletes.absent g (ground (arith, g, answer))
              (λ j. ground (arith, g, found j, ==_iff j id))
        | inr (e, g) ↦ elim (Bool-cases (is_unreserved e)) [
          | inl b ↦
              Deletes.gone e g (ground (arith, b, unreserved e)) (ground (arith, g, b, answer))
                (λ j. ground (arith, g, b, found j, ==_iff j id))
          | inr b ↦
              Deletes.refused e g (ground (arith, b, unreserved e)) (ground (arith, g, b, answer))
                (λ j. ground (arith, g, b, found j, ==_iff j id))
        ]
      ]
