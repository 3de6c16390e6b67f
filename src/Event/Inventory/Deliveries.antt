-- ===== src/Event/Inventory/Deliveries.antt =====
-- Any sequence of deliveries of reservation and release messages, and what each of them took from
-- or gave to one event by its own answer. The bus delivers at least once and in any order, so the
-- sequence is arbitrary: a message may come again, late, or interleaved with others.
use event_booking_system_mic.Sql.{Sql}
use event_booking_system_mic.Common.{
  Option, ℕ, List, some, none, Outcome, ◌∷◌, ◌+◌, ◌≡◌, if◌then◌else◌, ◌==◌, [], ◌≤◌, ok, ◌∙◌,
  throws, refl, arith, ap, true, Bool-cases, inl, inr,
}
use event_booking_system_mic.Event.Types.{
  ProcessReleaseSeatsInput, EventDb, EventRecord, ProcessReserveSeatsInput, ReleaseSeatsResult,
  event_schema, ReserveSeatsResult,
}
use event_booking_system_mic.Event.Inventory.Repository.{
  take_seats, has_seats, process_reserve_seats_message, process_release_seats_message, positive,
  give_seats, has_room,
}
use event_booking_system_mic.Errors.{Thrown}
use event_booking_system_mic.Event.Inventory.Reserve.Spec.{Reserves}
use event_booking_system_mic.Event.Inventory.Reserve.Contract.{process_reserve-Reserves}
use event_booking_system_mic.Event.Inventory.Release.{Releases, process_release-Releases}
use event_booking_system_mic.Event.Inventory.Rows.{Changed}

pub data Delivery : Type 0 where
  reserve : ℕ → ProcessReserveSeatsInput → Delivery
  release : ℕ → ProcessReleaseSeatsInput → Delivery

abbrev pub quantity_of : Option ℕ → ℕ
quantity_of none = 0
quantity_of (some n) = n

-- The seats of event `k` that an answer says were taken.
abbrev pub taken_by : ℕ → ProcessReserveSeatsInput → Outcome Thrown ReserveSeatsResult → ℕ
taken_by k input (ok (ReserveSeatsResult.reserved _ _)) =
    if input.event_id.value == k then quantity_of (positive input.quantity) else 0
taken_by k input (ok ReserveSeatsResult.duplicate) = 0
taken_by k input (ok (ReserveSeatsResult.refused _ _)) = 0
taken_by k input (throws _) = 0

-- The seats of event `k` that an answer says were given back.
abbrev pub given_by : ℕ → ProcessReleaseSeatsInput → ReleaseSeatsResult → ℕ
given_by k input (ReleaseSeatsResult.released _) =
    if input.event_id.value == k then quantity_of (positive input.quantity) else 0
given_by k input ReleaseSeatsResult.duplicate = 0
given_by k input (ReleaseSeatsResult.refused _) = 0

-- A database with the seats of one event that were taken and given on the way to it.
pub record Tally (sql : Sql) : Type 0 where
  pub db : EventDb sql
  pub taken : ℕ
  pub given : ℕ

module _ (sql : Sql) where
  unfoldable pub deliver : ℕ → Delivery → EventDb sql → Tally sql
  deliver k (reserve now input) db =
      let (r, db') = process_reserve_seats_message sql now input db in
      record { db = db'; taken = taken_by k input r; given = 0 }
  deliver k (release now input) db =
      let (r, db') = process_release_seats_message sql now input db in
      record { db = db'; taken = 0; given = given_by k input r }

  unfoldable pub run : ℕ → List Delivery → EventDb sql → Tally sql
  run k [] db = record { db = db; taken = 0; given = 0 }
  run k (d ∷ ds) db =
      let one = deliver k d db in
      let rest = run k ds one.db in
      record { db = rest.db; taken = one.taken + rest.taken; given = one.given + rest.given }

  -- The books of event `k`: its seats add up, and its capacity is what it was.
  pub record Balanced (k : ℕ) (e : EventRecord) (t : Tally sql) : Type 0 where
    pub now : EventRecord
    pub found : sql.find event_schema k t.db.events ≡ some now
    pub seats : now.available_seats + t.taken ≡ e.available_seats + t.given
    pub capacity : now.total_seats ≡ e.total_seats
    pub bounded : e.available_seats ≤ e.total_seats → now.available_seats ≤ now.total_seats

  module _ (k id now n : ℕ) (db after : EventDb sql) (e x : EventRecord) where
    Balanced-take :
        sql.find event_schema k db.events ≡ some e
        → Changed sql id (take_seats now n) x db after
        → has_seats n x ≡ true
        → Balanced k e (record { db = after; taken = if id == k then n else 0; given = 0 })
    unfolding take_seats has_seats
    Balanced-take f c m = elim (Bool-cases (id == k)) [
      | inl same ↦ record {
        now = take_seats now n x;
        found = ground (arith, c.1 k);
        seats = ground arith;
        capacity = ground arith;
        bounded = ground arith;
      }
      | inr other ↦ record {
        now = e;
        found = ground (arith, c.1 k);
        seats = ground arith;
        capacity = refl;
        bounded = λ h. h;
      }
    ]

    Balanced-give :
        sql.find event_schema k db.events ≡ some e
        → Changed sql id (give_seats now n) x db after
        → has_room n x ≡ true
        → Balanced k e (record { db = after; taken = 0; given = if id == k then n else 0 })
    unfolding give_seats has_room
    Balanced-give f c m = elim (Bool-cases (id == k)) [
      | inl same ↦ record {
        now = give_seats now n x;
        found = ground (arith, c.1 k);
        seats = ground arith;
        capacity = ground arith;
        bounded = ground arith;
      }
      | inr other ↦ record {
        now = e;
        found = ground (arith, c.1 k);
        seats = ground arith;
        capacity = refl;
        bounded = λ h. h;
      }
    ]

  Balanced-reserve :
      (k now : ℕ) (input : ProcessReserveSeatsInput) (db : EventDb sql) (e : EventRecord)
      (end : Outcome Thrown ReserveSeatsResult × EventDb sql)
      → sql.find event_schema k db.events ≡ some e
      → Reserves sql now input db end
      → Balanced k e (record { db = end.1; taken = taken_by k input end.0; given = 0 })
  Balanced-reserve k now input db e (ok ReserveSeatsResult.duplicate, after) f c = record {
    now = e;
    found = rw (c.1) f;
    seats = refl;
    capacity = refl;
    bounded = λ h. h;
  }
  Balanced-reserve k now input db e (ok (ReserveSeatsResult.reserved dto row), after) f c =
      let (n, x, q, m, _, changed, _, _) = c in
      rw (ap quantity_of q) (Balanced-take k input.event_id.value now n db after e x f changed m)
  Balanced-reserve k now input db e (ok (ReserveSeatsResult.refused r row), after) f c = record {
    now = e;
    found = c.0 k ∙ f;
    seats = refl;
    capacity = refl;
    bounded = λ h. h;
  }
  Balanced-reserve k now input db e (throws t, after) f c = record {
    now = e;
    found = rw (c.2) f;
    seats = refl;
    capacity = refl;
    bounded = λ h. h;
  }

  Balanced-release :
      (k now : ℕ) (input : ProcessReleaseSeatsInput) (db : EventDb sql) (e : EventRecord)
      (end : ReleaseSeatsResult × EventDb sql)
      → sql.find event_schema k db.events ≡ some e
      → Releases sql now input db end
      → Balanced k e (record { db = end.1; taken = 0; given = given_by k input end.0 })
  Balanced-release k now input db e (ReleaseSeatsResult.duplicate, after) f c = record {
    now = e;
    found = rw (c.1) f;
    seats = refl;
    capacity = refl;
    bounded = λ h. h;
  }
  Balanced-release k now input db e (ReleaseSeatsResult.released dto, after) f c =
      let (n, x, q, m, _, changed, _, _) = c in
      rw (ap quantity_of q) (Balanced-give k input.event_id.value now n db after e x f changed m)
  Balanced-release k now input db e (ReleaseSeatsResult.refused r, after) f c = record {
    now = e;
    found = c.0 k ∙ f;
    seats = refl;
    capacity = refl;
    bounded = λ h. h;
  }

  deliver-Balanced :
      (k : ℕ) (d : Delivery) (db : EventDb sql) (e : EventRecord)
      → sql.find event_schema k db.events ≡ some e
      → Balanced k e (deliver k d db)
  unfolding deliver
  deliver-Balanced k (reserve now input) db e f =
      Balanced-reserve k now input db e (process_reserve_seats_message sql now input db) f
        (process_reserve-Reserves sql now input db)
  deliver-Balanced k (release now input) db e f =
      Balanced-release k now input db e (process_release_seats_message sql now input db) f
        (process_release-Releases sql now input db)

  -- After any deliveries, an event that was there is there, its seats add up to what the answers
  -- say, and if its available seats were within its capacity before, they are now.
  pub run-Balanced :
      (k : ℕ) (ds : List Delivery) (db : EventDb sql) (e : EventRecord)
      → sql.find event_schema k db.events ≡ some e
      → Balanced k e (run k ds db)
  unfolding run
  run-Balanced k [] db e f = record {
    now = e;
    found = f;
    seats = refl;
    capacity = refl;
    bounded = λ h. h;
  }
  run-Balanced k (d ∷ ds) db e f =
      let one = deliver-Balanced k d db e f in
      let rest = run-Balanced k ds (deliver k d db).db one.now one.found in
      record {
        now = rest.now;
        found = rest.found;
        seats = omega (arith, one.seats, rest.seats);
        capacity = rest.capacity ∙ one.capacity;
        bounded = λ h. rest.bounded (one.bounded h);
      }

  -- After any deliveries, the seats that the answers took of an event that was there are at most
  -- those that were available and those that the answers gave back.
  pub run_never_overbooks :
      (k : ℕ) (ds : List Delivery) (db : EventDb sql) (e : EventRecord)
      → sql.find event_schema k db.events ≡ some e
      → (run k ds db).taken ≤ e.available_seats + (run k ds db).given
  run_never_overbooks k ds db e f = omega (arith, (run-Balanced k ds db e f).seats)
