-- ===== src/Messaging/Delivery.antt =====
-- A message on its way from a publisher to the handler of a subscription.
use Prim.Native.String.{String}
use event_booking_system_mic.Contracts.Json.{Json, ReadsBack}
use event_booking_system_mic.Contracts.RoundTrip.{quantity_of, parse_message_envelope-to_json}
use event_booking_system_mic.Common.{
  ◌∙◌, sym, ◌≡◌, ℕ, Outcome, some, throws, false, ok, refl, ◌<◌, List, ap,
}
use event_booking_system_mic.Messaging.Kafka.{
  Broker, Codec, KafkaRecord, create_kafka_subscription, each_message, without_result,
  find_subscription, record_of,
}
use event_booking_system_mic.Messaging.{
  process_kafka_record, handle_payload, RecordInput, DeadLetterRecord, KafkaSubscription,
  is_permanent,
}
use event_booking_system_mic.Contracts.{Topic, Message, topic_of}
use event_booking_system_mic.Errors.{Thrown}
use event_booking_system_mic.Contracts.RoundTrip.{to_json}
use event_booking_system_mic.Contracts.Schemas.{parse_message_envelope}

module _ (broker : Broker) (codec : Codec) {World : Type 0} where
  -- What `eachMessage` hands to `processKafkaRecord` for a record.
  abbrev pub received :
      KafkaRecord
      → ℕ
      → ℕ
      → String
      → (DeadLetterRecord → World → Outcome Thrown (Unit {0}) × World)
      → (Thrown → String)
      → KafkaSubscription Json World
      → RecordInput Json World
  received r partition offset consumer publish_dead_letter message_of s = record {
    subscription = s;
    raw_payload = some r.value;
    partition = partition;
    offset = offset;
    key = some r.key;
    consumer = consumer;
    publish_dead_letter = publish_dead_letter;
    json_parse = codec.json_parse;
    message_of = message_of;
  }

  handled :
      (topic : Topic) (h : Message → World → Outcome Thrown (Unit {0}) × World) (m : Message)
      (w : World) (given : RecordInput Json World)
      → given.subscription ≡ create_kafka_subscription codec.formats topic h
      → given.raw_payload ≡ some (codec.stringify (to_json codec.formats m))
      → given.json_parse (codec.stringify (to_json codec.formats m))
        ≡ some (to_json codec.formats m)
      → parse_message_envelope codec.formats topic (to_json codec.formats m) ≡ some m
      → handle_payload Json World given w ≡ h m w
  unfolding handle_payload create_kafka_subscription
  handled topic h m w given s r j p =
      rw (handle_payload, r, j, s, create_kafka_subscription, p) refl

  passed_on :
      (now : ℕ) (given : RecordInput Json World) (w : World)
      → ((e : Thrown) → (handle_payload Json World given w).0 ≡ throws e → is_permanent e ≡ false)
      → (o : Outcome Thrown (Unit {0})) → (handle_payload Json World given w).0 ≡ o
      → without_result (process_kafka_record Json World now given w)
        ≡ (o, (handle_payload Json World given w).1)
  unfolding process_kafka_record
  passed_on now given w temporary (ok u) e = rw (process_kafka_record, e) refl
  passed_on now given w temporary (throws t) e = rw (process_kafka_record, e, temporary t e) refl

  -- Where the formats are read back, and so is the text that `JSON.stringify` makes: an envelope of
  -- version 1 whose quantity, if its payload has one, is positive is published as a record; when the
  -- record is consumed, and the last subscription of its topic is made of the handler `h`, the outcome
  -- and the state are those of `h` on the same envelope, where what `h` throws is not permanent.
  pub each_message-publish :
      ReadsBack codec.formats
      → (m : Message)
      → codec.json_parse (codec.stringify (to_json codec.formats m))
        ≡ some (to_json codec.formats m)
      → m.version ≡ 1
      → 0 < quantity_of m.payload
      → (h : Message → World → Outcome Thrown (Unit {0}) × World) (w : World)
      → ((e : Thrown) → (h m w).0 ≡ throws e → is_permanent e ≡ false)
      → (subscriptions : List (KafkaSubscription Json World))
      → find_subscription (topic_of m.payload) subscriptions
        ≡ some (create_kafka_subscription codec.formats (topic_of m.payload) h)
      → (now partition offset : ℕ) (consumer : String)
        (dead : DeadLetterRecord → World → Outcome Thrown (Unit {0}) × World)
        (message_of : Thrown → String)
      → each_message subscriptions now
          (topic_of m.payload)
          (received
            (record_of broker codec (topic_of m.payload) m)
            partition
            offset
            consumer
            dead
            message_of)
          w
        ≡ h m w
  unfolding each_message
  each_message-publish back m json v q h w temporary subscriptions found now partition offset
        consumer dead message_of =
      let topic = topic_of m.payload in
      let s = create_kafka_subscription codec.formats topic h in
      let given =
        received (record_of broker codec topic m) partition offset consumer dead message_of s in
      let same =
        handled topic h m w given refl refl json
          (parse_message_envelope-to_json codec.formats back m v q) in
      let passed =
        passed_on now given w (λ e t. temporary e (sym (ap (λ x. x.0) same) ∙ t))
          (handle_payload Json World given w).0 refl in
      rw (each_message, found) (passed ∙ same)
