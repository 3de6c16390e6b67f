-- ===== src/Messaging/Tests.antt =====
-- Connecting and reading at concrete inputs.
use Prim.Native.String.{String}
use event_booking_system_mic.Common.{
  ◌<◌, ◌+◌, ◌≡◌, ℕ, Option, is_ok, throws, ok, Outcome, some, false, none, true, suc, arith, [],
  refl, zero,
}
use event_booking_system_mic.Messaging.{process_kafka_record, Runner, start, RecordInput}
use event_booking_system_mic.Errors.{Thrown}
use event_booking_system_mic.Contracts.{Topic}
use event_booking_system_mic.Messaging.Connecting.{start_succeeds}
use event_booking_system_mic.Messaging.Records.{Ends, process_kafka_record-Ends}

-- The first two attempts fail.
abbrev third_time : ℕ → Outcome Thrown (Unit {0})
third_time zero = throws Thrown.not_an_error
third_time (suc zero) = throws Thrown.not_an_error
third_time (suc (suc zero)) = throws Thrown.not_an_error
third_time (suc (suc (suc n))) = ok tt

abbrev idle : Runner
idle = record { running = false; consumer = none; slept = 0 }

third_time_fails : (i : ℕ) → i < 3 → is_ok (third_time i) ≡ false
third_time_fails zero h = refl
third_time_fails (suc zero) h = refl
third_time_fails (suc (suc zero)) h = refl
third_time_fails (suc (suc (suc n))) h = absurd (ground arith)

start_succeeds_example :
    start third_time idle ≡ (ok tt, record { running = true; consumer = some 3; slept = 3000 })
start_succeeds_example =
    start_succeeds third_time 3 idle refl (omega arith) (omega arith)
      (λ i a b. third_time_fails i b) refl

-- A payload that the schema of the topic refuses, and a topic of dead letters that takes everything.
abbrev record_of : Option String → RecordInput ℕ ℕ
record_of payload = record {
  subscription = record {
    topic = Topic.reserve_seats;
    handle = λ j w. (throws (Thrown.zod_error []), w);
  };
  raw_payload = payload;
  partition = 0;
  offset = 7;
  key = none;
  consumer = "event-service";
  publish_dead_letter = λ d n. (ok tt, n + 1);
  json_parse = λ text. some 0;
  message_of = λ e. "error";
}

process_kafka_record-Ends_example :
    Ends ℕ ℕ 5 (record_of (some "{}")) 0 (process_kafka_record ℕ ℕ 5 (record_of (some "{}")) 0)
process_kafka_record-Ends_example = process_kafka_record-Ends ℕ ℕ 5 (record_of (some "{}")) 0
