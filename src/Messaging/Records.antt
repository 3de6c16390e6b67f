-- ===== src/Messaging/Records.antt =====
-- What becomes of every record of a partition.
use Prim.Native.String.{String}
use mathlib.Core.Path.{subst}
use event_booking_system_mic.Common.{
  ◌≡◌, ◌⊎◌, Outcome, Option-cases, Bool-cases, ℕ, none, some, ok, throws, true, inl, inr, arith,
  refl, sym,
}
use event_booking_system_mic.Messaging.{
  process_kafka_record, RecordInput, RecordResult, handle_payload, is_permanent, DeadLetterRecord,
  dead_letter,
}
use event_booking_system_mic.Errors.{Thrown}

-- An error that a record has again whenever it is processed.
abbrev pub IsPoison : Thrown → Type 0
IsPoison e =
    (e ≡ Thrown.syntax_error)
    ⊎ (((issues : _) × (e ≡ Thrown.zod_error issues))
        ⊎ ((m : _) × (e ≡ Thrown.permanent_message_error m)))

is_permanent-IsPoison : (e : Thrown) → is_permanent e ≡ true → IsPoison e
unfolding is_permanent
is_permanent-IsPoison Thrown.syntax_error h = inl refl
is_permanent-IsPoison (Thrown.zod_error issues) h = inr (inl (issues, refl))
is_permanent-IsPoison (Thrown.permanent_message_error m) h = inr (inr (m, refl))
is_permanent-IsPoison _ h = absurd (ground arith)

IsPoison-is_permanent : (e : Thrown) → IsPoison e → is_permanent e ≡ true
unfolding is_permanent
IsPoison-is_permanent e (inl h) = rw h refl
IsPoison-is_permanent e (inr (inl (issues, h))) = rw h refl
IsPoison-is_permanent e (inr (inr (m, h))) = rw h refl

module _ (Json World : Type 0) where
  -- The JSON in the payload of a record, and a payload without any.
  abbrev pub Reads : RecordInput Json World → Json → Type 0
  Reads r json = (text : String) × (r.raw_payload ≡ some text) × (r.json_parse text ≡ some json)

  abbrev pub IsUnreadable : RecordInput Json World → Type 0
  IsUnreadable r =
      (r.raw_payload ≡ none)
      ⊎ ((text : String) × (r.raw_payload ≡ some text) × (r.json_parse text ≡ none))

  -- How a record that ends with an error does so, and what it has then done.
  abbrev pub Fails : RecordInput Json World → World → Thrown → World → Type 0
  Fails r w e v =
      (IsUnreadable r × (e ≡ Thrown.syntax_error) × (v ≡ w))
      ⊎ ((json : Json) × Reads r json × (r.subscription.handle json w ≡ (throws e, v)))

  -- The dead letter of a record: where it stood, what it held and the text of its error.
  pub record IsLetter (now : ℕ) (r : RecordInput Json World) (e : Thrown) (d : DeadLetterRecord)
      : Type 0 where
    pub source_topic : d.source_topic ≡ r.subscription.topic
    pub partition : d.partition ≡ r.partition
    pub offset : d.offset ≡ r.offset
    pub key : d.key ≡ r.key
    pub raw_payload : d.raw_payload ≡ r.raw_payload
    pub consumer : d.consumer ≡ r.consumer
    pub error : d.error ≡ r.message_of e
    pub timestamp : d.timestamp ≡ now

  -- The ways in which the processing of a record on `w` can end, each with what it leaves.
  pub data Ends (now : ℕ) (r : RecordInput Json World) (w : World)
      : Outcome Thrown RecordResult × World → Type 0 where
    handled :
        (json : Json) (v : World)
        → Reads r json
        → r.subscription.handle json w ≡ (ok tt, v)
        → Ends now r w (ok RecordResult.processed, v)
    buried :
        (e : Thrown) (v u : World) (d : DeadLetterRecord)
        → Fails r w e v
        → IsPoison e
        → IsLetter now r e d
        → r.publish_dead_letter d v ≡ (ok tt, u)
        → Ends now r w (ok RecordResult.dead_lettered, u)
    unburied :
        (e e' : Thrown) (v u : World) (d : DeadLetterRecord)
        → Fails r w e v
        → IsPoison e
        → IsLetter now r e d
        → r.publish_dead_letter d v ≡ (throws e', u)
        → Ends now r w (throws e', u)
    rethrown : (e : Thrown) (v : World) → Fails r w e v → ¬ IsPoison e → Ends now r w (throws e, v)

  dead_letter-IsLetter :
      (now : ℕ) (r : RecordInput Json World) (e : Thrown)
      → IsLetter now r e (dead_letter Json World now r e)
  dead_letter-IsLetter now r e = ground arith

  -- What the body of the `try` has done.
  abbrev Handled : RecordInput Json World → World → Outcome Thrown (Unit {0}) × World → Type 0
  Handled r w (ok _, v) = (json : Json) × Reads r json × (r.subscription.handle json w ≡ (ok tt, v))
  Handled r w (throws e, v) = Fails r w e v

  call-Handled :
      (r : RecordInput Json World) (w : World) (json : Json)
      → Reads r json
      → (x : Outcome Thrown (Unit {0}) × World) → r.subscription.handle json w ≡ x
      → Handled r w x
  call-Handled r w json reads (ok tt, v) e = (json, reads, e)
  call-Handled r w json reads (throws t, v) e = inr (json, reads, e)

  handle_payload-unreadable :
      (r : RecordInput Json World) (w : World)
      → IsUnreadable r
      → handle_payload Json World r w ≡ (throws Thrown.syntax_error, w)
  unfolding handle_payload
  handle_payload-unreadable r w (inl n) = ground (arith, n)
  handle_payload-unreadable r w (inr (text, f, n)) = ground (arith, f, n)

  handle_payload-read :
      (r : RecordInput Json World) (w : World) (json : Json)
      → Reads r json
      → handle_payload Json World r w ≡ r.subscription.handle json w
  unfolding handle_payload
  handle_payload-read r w json (text, f, g) = ground (arith, f, g)

  handle_payload-Handled :
      (r : RecordInput Json World) (w : World) → Handled r w (handle_payload Json World r w)
  handle_payload-Handled r w = elim (Option-cases r.raw_payload) [
    | inl n ↦ unreadable (inl n)
    | inr (text, f) ↦ elim (Option-cases (r.json_parse text)) [
      | inl n ↦ unreadable (inr (text, f, n))
      | inr (json, g) ↦
          subst (Handled r w) (sym (handle_payload-read r w json (text, f, g)))
            (call-Handled r w json (text, f, g) (r.subscription.handle json w) refl)
    ]
  ]
    where
      unreadable : IsUnreadable r → Handled r w (handle_payload Json World r w)
      unreadable u =
          subst (Handled r w) (sym (handle_payload-unreadable r w u)) (inl (u, refl, refl))

  module _ (now : ℕ) (r : RecordInput Json World) (w : World) where
    sends-Ends :
        (e : Thrown) (v : World)
        → Fails r w e v
        → IsPoison e
        → (x : Outcome Thrown (Unit {0}) × World)
        → r.publish_dead_letter (dead_letter Json World now r e) v ≡ x
        → handle_payload Json World r w ≡ (throws e, v)
        → Ends now r w (process_kafka_record Json World now r w)
    unfolding process_kafka_record
    sends-Ends e v fails poison (ok u, after) sent h =
        subst (Ends now r w) (ground (arith, h, IsPoison-is_permanent e poison, sent)) (
          Ends.buried e v after (dead_letter Json World now r e) fails poison
            (dead_letter-IsLetter now r e) sent)
    sends-Ends e v fails poison (throws e', after) sent h =
        subst (Ends now r w) (ground (arith, h, IsPoison-is_permanent e poison, sent)) (
          Ends.unburied e e' v after (dead_letter Json World now r e) fails poison
            (dead_letter-IsLetter now r e) sent)

    ends_on :
        (x : Outcome Thrown (Unit {0}) × World)
        → handle_payload Json World r w ≡ x
        → Handled r w x
        → Ends now r w (process_kafka_record Json World now r w)
    unfolding process_kafka_record
    ends_on (ok u, v) h (json, reads, e) =
        subst (Ends now r w) (ground (arith, h)) (Ends.handled json v reads e)
    ends_on (throws e, v) h fails = elim (Bool-cases (is_permanent e)) [
      | inl p ↦
          sends-Ends e v fails (is_permanent-IsPoison e p)
            (r.publish_dead_letter (dead_letter Json World now r e) v) refl h
      | inr p ↦ subst (Ends now r w) (ground (arith, h, p)) (
          Ends.rethrown e v fails
            (λ poison. absurd (ground (arith, p, IsPoison-is_permanent e poison))))
    ]

  -- Processing a record ends in one of four ways. Where its payload is JSON that the handler takes, it
  -- is processed. Where the payload is missing or no JSON, or the handler throws, with an error that
  -- is a syntax error, one of zod or a permanent message error, its dead letter, with its topic,
  -- partition, offset, key, payload, the consumer and the error's text, is published: accepted, the
  -- record is dead-lettered, and otherwise the error of the publication is thrown. Any other error of
  -- the handler is thrown, and no dead letter is published.
  pub process_kafka_record-Ends :
      (now : ℕ) (r : RecordInput Json World) (w : World)
      → Ends now r w (process_kafka_record Json World now r w)
  process_kafka_record-Ends now r w =
      ends_on now r w (handle_payload Json World r w) refl (handle_payload-Handled r w)
