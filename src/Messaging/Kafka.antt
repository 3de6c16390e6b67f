-- ===== src/Messaging/Kafka.antt =====
-- packages/messaging/src/index.ts: `createKafkaSubscription`, `KafkaMessagePublisher`, and what
-- `KafkaConsumerRunner` does beside `start`. kafkajs is a parameter.
use Prim.Native.String.{String}
use text.Mathlib.Text.{◌==◌ as str_eq}
use event_booking_system_mic.Contracts.Json.{Json, Formats}
use Prim.Native.String.{◌++◌ as str_append}
use event_booking_system_mic.Contracts.{Topic, Message, canonical}
use event_booking_system_mic.Common.{
  Bool, List, Outcome, Option, ℕ, throws, none, if◌then◌else◌, is_some, ok, ◌∷◌, some, ◌&&◌, [],
  false, true, not, is_ok,
}
use event_booking_system_mic.Messaging.{
  DeadLetterRecord, Runner, KafkaSubscription, RecordInput, process_kafka_record, RecordResult,
}
use event_booking_system_mic.Errors.{Thrown, zod_error}
use event_booking_system_mic.Contracts.Schemas.{parse_message_envelope}
use event_booking_system_mic.Contracts.RoundTrip.{to_json}

-- `Topics`
abbrev pub topic_text : Topic → String
topic_text Topic.reserve_seats = "booking.reserve-seats"
topic_text Topic.seats_reserved = "event.seats-reserved"
topic_text Topic.seat_reservation_failed = "event.seat-reservation-failed"
topic_text Topic.booking_confirmed = "booking.confirmed"
topic_text Topic.booking_failed = "booking.failed"
topic_text Topic.booking_cancelled = "booking.cancelled"

-- What `producer.send` is given.
pub record KafkaRecord : Type 0 where
  pub topic : String
  pub key : String
  pub value : String

-- The brokers, as a producer or a consumer reaches them.
pub record Broker : Type 1 where
  pub State : Type 0
  pub connect : State → Outcome Thrown (Unit {0}) × State
  pub disconnect : State → Outcome Thrown (Unit {0}) × State
  pub send : KafkaRecord → State → Outcome Thrown (Unit {0}) × State

-- `JSON.stringify` and `JSON.parse`, and the formats of the envelopes.
pub record Codec : Type 0 where
  pub formats : Formats
  pub stringify : Json → String
  pub stringify_record : DeadLetterRecord → String
  pub json_parse : String → Option Json

-- A producer that is there, and whether it is connected.
pub record ProducerState : Type 0 where
  pub created : Bool
  pub connected : Bool

module _ (broker : Broker) where
  pub record ProducerWorld : Type 0 where
    pub producer : ProducerState
    pub brokers : broker.State

  -- `getProducer`, and the first half of `publishDeadLetter`
  unfoldable pub get_producer : ProducerWorld → Outcome Thrown (Unit {0}) × ProducerWorld
  get_producer w =
      if w.producer.connected
      then (ok tt, record w { producer = record { created = true; connected = true } })
      else let (r, b) = broker.connect w.brokers in
        (r, record { producer = record { created = true; connected = is_ok r }; brokers = b })

  -- `producer.send`, once there is a producer
  unfoldable pub send_record :
      KafkaRecord → ProducerWorld → Outcome Thrown (Unit {0}) × ProducerWorld
  send_record r w =
      let (got, w') = get_producer w in
      elim got [
        | throws e ↦ (throws e, w')
        | ok _ ↦ let (sent, b) = broker.send r w'.brokers in (sent, record w' { brokers = b })
      ]

  -- The record that carries a message.
  abbrev pub record_of : Codec → Topic → Message → KafkaRecord
  record_of codec topic m = record {
    topic = topic_text topic;
    key = codec.formats.write_uuid (canonical m.correlation_id);
    value = codec.stringify (to_json codec.formats m);
  }

  -- `publish`
  unfoldable pub publish :
      Codec → Topic → Message → ProducerWorld → Outcome Thrown (Unit {0}) × ProducerWorld
  publish codec topic m w = send_record (record_of codec topic m) w

  -- `publishDeadLetter`, on the topic that `processKafkaRecord` names
  unfoldable pub publish_dead_letter :
      Codec → DeadLetterRecord → ProducerWorld → Outcome Thrown (Unit {0}) × ProducerWorld
  publish_dead_letter codec d w =
      send_record
        (record {
          topic = str_append "dead-letter." (topic_text d.source_topic);
          key = elim d.key [ none ↦ topic_text d.source_topic | some k ↦ k ];
          value = codec.stringify_record d;
        })
        w

  -- `disconnect`, also the second half of `stop`
  unfoldable pub disconnect : ProducerWorld → Outcome Thrown (Unit {0}) × ProducerWorld
  disconnect w =
      if w.producer.created && w.producer.connected
      then (let (r, b) = broker.disconnect w.brokers in
          (
            r,
            record { producer = record { created = true; connected = not (is_ok r) }; brokers = b },
          ))
      else (ok tt, w)

  -- `stop` of the runner
  unfoldable pub stop :
      Runner × ProducerWorld → Outcome Thrown (Unit {0}) × (Runner × ProducerWorld)
  stop (r, w) =
      if is_some r.consumer && r.running
      then (let (left, b) = broker.disconnect w.brokers in
          let w' : ProducerWorld = record w { brokers = b } in
          elim left [
            | throws e ↦ (throws e, (r, w'))
            | ok _ ↦ let (done, w'') = disconnect w' in (done, (record r { running = false }, w''))
          ])
      else let (done, w') = disconnect w in (done, (r, w'))

-- `isRunning`
abbrev pub is_running : Runner → Bool
is_running r = r.running

module _ {World : Type 0} where
  -- `createKafkaSubscription`
  unfoldable pub create_kafka_subscription :
      Formats
      → Topic
      → (Message → World → Outcome Thrown (Unit {0}) × World)
      → KafkaSubscription Json World
  create_kafka_subscription f topic handler = record {
    topic = topic;
    handle = λ json w. elim (parse_message_envelope f topic json) [
      | none ↦ (throws (zod_error []), w)
      | some m ↦ handler m w
    ];
  }

  -- `getSubscriptions` and a look-up in its `Map`, where the last subscription of a topic stays
  unfoldable pub find_subscription :
      Topic → List (KafkaSubscription Json World) → Option (KafkaSubscription Json World)
  find_subscription topic [] = none
  find_subscription topic (s ∷ ss) = elim (find_subscription topic ss) [
    | some later ↦ some later
    | none ↦ if str_eq (topic_text topic) (topic_text s.topic) then some s else none
  ]

  -- `eachMessage` leaves out what `processKafkaRecord` answers.
  abbrev pub without_result :
      Outcome Thrown RecordResult × World → Outcome Thrown (Unit {0}) × World
  without_result (ok _, w) = (ok tt, w)
  without_result (throws e, w) = (throws e, w)

  -- `eachMessage`: `given` is the argument of `processKafkaRecord` but for the subscription.
  unfoldable pub each_message :
      List (KafkaSubscription Json World)
      → ℕ
      → Topic
      → (KafkaSubscription Json World → RecordInput Json World)
      → World
      → Outcome Thrown (Unit {0}) × World
  each_message subscriptions now topic given w = elim (find_subscription topic subscriptions) [
    | none ↦ (ok tt, w)
    | some s ↦ without_result (process_kafka_record Json World now (given s) w)
  ]
