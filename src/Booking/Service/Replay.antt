-- ===== src/Booking/Service/Replay.antt =====
-- A request that is sent again with its idempotency key.
use event_booking_system_mic.Common.{
  ◌∷◌, ◌++◌, ◌≡◌, length, ap, ◌↔◌, true, ℕ, arith, Outcome, ◌∙◌, sym, eq_refl, if◌then◌else◌, drop,
  refl, [], ==_iff, ok, throws, some, none, Option-cases, inl, inr,
}
use event_booking_system_mic.Booking.Service.{
  CreateRequest, request_fingerprint, Texts, create_booking, make_booking, FreshIds, drain,
  claim_error, dispatch_outbox, after_drain, ServiceWorld, create_input, reserve_seats_message,
}
use event_booking_system_mic.Booking.Types.{Text, BookingDto, BookingDb, IdempotencyRow}
use event_booking_system_mic.Sql.{Sql}
use event_booking_system_mic.Booking.Repository.Rows.{fingerprint_eq, truthy_key}
use event_booking_system_mic.Outbox.Dispatch.{Publisher}
use event_booking_system_mic.Booking.Repository.Create.{
  find_idempotency_record, create_booking_with_outbox, idempotency_key_reused, insert_booking,
}
use event_booking_system_mic.Errors.{Thrown}
use event_booking_system_mic.Booking.Idempotency.{insert_booking-recorded}

append-cancel :
    (xs ys zs ws : Text) → length xs ≡ length ys → xs ++ zs ≡ ys ++ ws → (xs ≡ ys) × (zs ≡ ws)
append-cancel [] [] zs ws h e = (refl, e)
append-cancel [] (y ∷ ys) zs ws h e = absurd (ground arith)
append-cancel (x ∷ xs) [] zs ws h e = absurd (ground arith)
append-cancel (x ∷ xs) (y ∷ ys) zs ws h e =
    let rest = append-cancel xs ys zs ws (ground arith) (ground arith) in
    (ground (arith, rest.0), rest.1)

pub fingerprint_eq_refl : (xs : Text) → fingerprint_eq xs xs ≡ true
fingerprint_eq_refl [] = refl
fingerprint_eq_refl (x ∷ xs) = ground (arith, fingerprint_eq_refl xs, eq_refl x)

fingerprint_eq_sound : (xs ys : Text) → fingerprint_eq xs ys ≡ true → xs ≡ ys
fingerprint_eq_sound [] [] h = refl
fingerprint_eq_sound [] (y ∷ ys) h = absurd (ground arith)
fingerprint_eq_sound (x ∷ xs) [] h = absurd (ground arith)
fingerprint_eq_sound (x ∷ xs) (y ∷ ys) h =
    ground (arith, fingerprint_eq_sound xs ys (ground arith), ==_iff x y)

-- The same user, event and quantity.
abbrev pub SameRequest : CreateRequest → CreateRequest → Type 0
SameRequest r r' =
    (r.user_id.value ≡ r'.user_id.value)
    × (r.event_id.value ≡ r'.event_id.value)
    × (r.quantity ≡ r'.quantity)

-- Where every UUID has a text of one length and no two UUIDs, or quantities, have the same text, two
-- requests have the same fingerprint exactly when they are for the same user, event and quantity,
-- however the ids were spelt.
pub request_fingerprint_same :
    (texts : Texts) (n : ℕ)
    → ((a : ℕ) → length (texts.uuid a) ≡ n)
    → ((a b : ℕ) → texts.uuid a ≡ texts.uuid b → a ≡ b)
    → ((a b : ℕ) → texts.decimal a ≡ texts.decimal b → a ≡ b)
    → (r r' : CreateRequest)
    → (fingerprint_eq (request_fingerprint texts r) (request_fingerprint texts r') ≡ true)
      ↔ SameRequest r r'
unfolding request_fingerprint
request_fingerprint_same texts n long uuid decimal r r' = (
  (λ h.
      let e = fingerprint_eq_sound (request_fingerprint texts r) (request_fingerprint texts r') h in
      let (user, rest) =
        append-cancel (texts.uuid r.user_id.value) (texts.uuid r'.user_id.value)
          (58 ∷ (texts.uuid r.event_id.value ++ (58 ∷ texts.decimal r.quantity)))
          (58 ∷ (texts.uuid r'.event_id.value ++ (58 ∷ texts.decimal r'.quantity)))
          (long r.user_id.value ∙ sym (long r'.user_id.value)) (ap (drop 3) e) in
      let (event, quantity) =
        append-cancel (texts.uuid r.event_id.value) (texts.uuid r'.event_id.value)
          (58 ∷ texts.decimal r.quantity) (58 ∷ texts.decimal r'.quantity)
          (long r.event_id.value ∙ sym (long r'.event_id.value)) (ap (drop 1) rest) in
      (
        uuid r.user_id.value r'.user_id.value user,
        uuid r.event_id.value r'.event_id.value event,
        decimal r.quantity r'.quantity (ap (drop 1) quantity),
      )),
  (λ (u, e, q). rw (u, e, q) (fingerprint_eq_refl (request_fingerprint texts r'))),
)

module _ (sql : Sql) (publisher : Publisher) where
  -- The answer to a request whose key stands for the booking `b`, made with the fingerprint `f`.
  abbrev pub replayed : Text → BookingDto → Text → Outcome Thrown BookingDto
  replayed f b g = if fingerprint_eq f g then ok b else throws idempotency_key_reused

  pub create_booking-made :
      (texts : Texts) (now : ℕ) (ids : FreshIds) (r : CreateRequest)
      (w : ServiceWorld sql publisher) (k : ℕ) {b : BookingDto} {db' : BookingDb sql}
      → truthy_key r.idempotency_key ≡ some k
      → find_idempotency_record sql k w.db ≡ none
      → insert_booking sql now (create_input texts ids r) (reserve_seats_message now ids r) w.db
        ≡ ok (b, db')
      → create_booking sql publisher texts now ids r w
        ≡ after_drain sql publisher b (drain sql publisher now (record w { db = db' }))
  unfolding create_booking make_booking create_booking_with_outbox
  create_booking-made texts now ids r w k {b} {db'} t f h = ground (arith, t, f, h)

  pub create_booking-known :
      (texts : Texts) (now : ℕ) (ids : FreshIds) (r : CreateRequest)
      (w : ServiceWorld sql publisher) (k : ℕ) {existing : IdempotencyRow}
      → truthy_key r.idempotency_key ≡ some k
      → find_idempotency_record sql k w.db ≡ some existing
      → create_booking sql publisher texts now ids r w
        ≡ (replayed existing.request_fingerprint existing.response (request_fingerprint texts r), w)
  unfolding create_booking
  create_booking-known texts now ids r w k {existing} t f = ground (arith, t, f)

  find_idempotency_record-drain :
      (now k : ℕ) (w : ServiceWorld sql publisher)
      → find_idempotency_record sql k (drain sql publisher now w).1.db
        ≡ find_idempotency_record sql k w.db
  unfolding find_idempotency_record drain dispatch_outbox
  find_idempotency_record-drain now k w = elim (Option-cases (claim_error sql publisher now w)) [
    | inl e ↦ rw (drain, e) refl
    | inr (t, e) ↦ rw (drain, e) refl
  ]

  pub after_drain_split :
      {A : Type 0} (a : A) (x : Outcome Thrown (Unit {0}) × ServiceWorld sql publisher)
      → after_drain sql publisher a x ≡ ((after_drain sql publisher a x).0, x.1)
  after_drain_split a (ok _, w) = refl
  after_drain_split a (throws e, w) = refl

  -- What a committed call ends with, where the dispatcher runs at a time or the database refuses it
  -- its claim.
  abbrev pub answered_at : ℕ → ServiceWorld sql publisher → BookingDto → Outcome Thrown BookingDto
  answered_at now w b = elim (claim_error sql publisher now w) [ none ↦ ok b | some e ↦ throws e ]

  after_drain-answered :
      (now : ℕ) (w : ServiceWorld sql publisher) (db : BookingDb sql) (b : BookingDto)
      → (after_drain sql publisher b (drain sql publisher now (record w { db = db }))).0
        ≡ answered_at now w b
  unfolding drain
  after_drain-answered now w db b = elim (Option-cases (claim_error sql publisher now w)) [
    | inl e ↦ ground (arith, e)
    | inr (t, e) ↦ ground (arith, e)
  ]

  -- Where a request has a key that is not recorded and its insert goes through, it is answered with
  -- its booking `b`, or with the error of the dispatcher's claim where the database refuses that; the
  -- next request with that key, on the state that the first one and the
  -- dispatcher left and with any identifiers and time, is answered with `b` if its fingerprint is
  -- the same and is refused as a reused key otherwise, and it leaves the service as it was.
  pub create_booking_replays :
      (texts : Texts) (now : ℕ) (ids : FreshIds) (r : CreateRequest)
      (w : ServiceWorld sql publisher) (k : ℕ) {b : BookingDto} {db' : BookingDb sql}
      → truthy_key r.idempotency_key ≡ some k
      → find_idempotency_record sql k w.db ≡ none
      → insert_booking sql now (create_input texts ids r) (reserve_seats_message now ids r) w.db
        ≡ ok (b, db')
      → (now' : ℕ) (ids' : FreshIds) (r' : CreateRequest) → truthy_key r'.idempotency_key ≡ some k
      → let (first, w') = create_booking sql publisher texts now ids r w in
        (first ≡ answered_at now w b)
        × (create_booking sql publisher texts now' ids' r' w'
            ≡ (replayed (request_fingerprint texts r) b (request_fingerprint texts r'), w'))
  create_booking_replays texts now ids r w k {b} {db'} t f h now' ids' r' t' =
      let made = create_booking-made texts now ids r w k t f h in
      let x = drain sql publisher now (record w { db = db' }) in
      let w' = x.1 in
      let (e, found) =
        insert_booking-recorded sql now k (create_input texts ids r)
          (reserve_seats_message now ids r) w.db t h in
      let known =
        create_booking-known texts now' ids' r' w' k t'
          (find_idempotency_record-drain now k (record w { db = db' }) ∙ found) in
      rw (made, after_drain_split b x) (after_drain-answered now w db' b, rw (known, e) refl)
