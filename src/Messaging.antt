-- ===== src/Messaging.antt =====
-- packages/messaging/src/index.ts: what a consumer makes of one record of a topic, and how it
-- connects. Kafka and JSON are no code of the repository: they are arguments.
use Prim.Native.String.{String}
pub mod Connecting
pub mod Kafka
pub mod Delivery
pub mod Records
pub mod Tests
use event_booking_system_mic.Common.{
  ◌∷◌, ◌+◌, ◌*◌, ◌==◌, Option, Bool, ℕ, Outcome, if◌then◌else◌, none, List, true, ok, throws, suc,
  some, [], false, zero,
}
use event_booking_system_mic.Contracts.{Topic}
use event_booking_system_mic.Errors.{Thrown, zod_error, permanent_message_error, syntax_error}

-- `DeadLetterRecord`
pub record DeadLetterRecord : Type 0 where
  pub source_topic : Topic
  pub partition : ℕ
  pub offset : ℕ
  pub key : Option String
  pub raw_payload : Option String
  pub consumer : String
  pub error : String
  pub timestamp : ℕ

pub data RecordResult : Type 0 where
  processed dead_lettered : RecordResult

-- `error instanceof SyntaxError || … ZodError || … PermanentMessageError`
unfoldable pub is_permanent : Thrown → Bool
is_permanent syntax_error = true
is_permanent (zod_error _) = true
is_permanent (permanent_message_error _) = true
is_permanent _ = false

module _ (Json World : Type 0) where
  -- `KafkaSubscription`
  pub record KafkaSubscription : Type 0 where
    pub topic : Topic
    pub handle : Json → World → Outcome Thrown (Unit {0}) × World

  -- The rest of the argument of `processKafkaRecord`; `json_parse` has no value where `JSON.parse`
  -- throws, and `message_of` is `error.message`.
  pub record RecordInput : Type 0 where
    pub subscription : KafkaSubscription
    pub raw_payload : Option String
    pub partition : ℕ
    pub offset : ℕ
    pub key : Option String
    pub consumer : String
    pub publish_dead_letter : DeadLetterRecord → World → Outcome Thrown (Unit {0}) × World
    pub json_parse : String → Option Json
    pub message_of : Thrown → String

  -- The body of the `try` of `processKafkaRecord`.
  unfoldable pub handle_payload : RecordInput → World → Outcome Thrown (Unit {0}) × World
  handle_payload input w = elim input.raw_payload [
    | none ↦ (throws syntax_error, w)
    | some text ↦ elim (input.json_parse text) [
      | none ↦ (throws syntax_error, w)
      | some json ↦ input.subscription.handle json w
    ]
  ]

  abbrev pub dead_letter : ℕ → RecordInput → Thrown → DeadLetterRecord
  dead_letter now input e = record {
    source_topic = input.subscription.topic;
    partition = input.partition;
    offset = input.offset;
    key = input.key;
    raw_payload = input.raw_payload;
    consumer = input.consumer;
    error = input.message_of e;
    timestamp = now;
  }

  -- `processKafkaRecord`
  unfoldable pub process_kafka_record :
      ℕ → RecordInput → World → Outcome Thrown RecordResult × World
  process_kafka_record now input w =
      let (r, w') = handle_payload input w in
      elim r [
        | ok _ ↦ (ok RecordResult.processed, w')
        | throws e ↦
            if is_permanent e
            then (let (p, w'') = input.publish_dead_letter (dead_letter now input e) w' in
                elim p [
                  | ok _ ↦ (ok RecordResult.dead_lettered, w'')
                  | throws e' ↦ (throws e', w'')
                ])
            else (throws e, w')
      ]

-- `KafkaConsumerRunner`: whether it runs, the attempt that made its consumer, if it has one, and how
-- long it has slept, in milliseconds.
pub record Runner : Type 0 where
  pub running : Bool
  pub consumer : Option ℕ
  pub slept : ℕ

abbrev pub max_connect_attempts : ℕ
max_connect_attempts = 10

-- The loop of `start`, from attempt `attempt` on, of which `left` are left; `connect` is how the body
-- of the `try` ends at each attempt, which is Kafka's doing.
unfoldable pub connect_from :
    (ℕ → Outcome Thrown (Unit {0})) → ℕ → ℕ → Runner → Outcome Thrown (Unit {0}) × Runner
connect_from connect zero attempt r = (ok tt, r)
connect_from connect (suc left) attempt r =
    let failed : Runner = record r { consumer = none } in
    let later =
      connect_from connect left (attempt + 1)
        (record failed { slept = r.slept + 1000 * attempt }) in
    elim (connect attempt) [
      | ok _ ↦ (ok tt, record r { running = true; consumer = some attempt })
      | throws e ↦ if attempt == max_connect_attempts then (throws e, failed) else later
    ]

-- `start`
unfoldable pub start : (ℕ → Outcome Thrown (Unit {0})) → Runner → Outcome Thrown (Unit {0}) × Runner
start connect r = if r.running then (ok tt, r) else connect_from connect max_connect_attempts 1 r
