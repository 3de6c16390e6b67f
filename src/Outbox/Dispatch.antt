-- ===== src/Outbox/Dispatch.antt =====
-- `BookingOutboxDispatcher`, services/booking-service/src/modules/bookings/booking-outbox.dispatcher.ts,
-- and `EventOutboxDispatcher`, services/event-service/src/modules/events/event-outbox.dispatcher.ts,
-- which is the same code: claim what is due, publish each row, and note how that went. Time stands
-- still within one run.
pub mod Soundness
pub mod Settlement
use Prim.Native.String.{String}
use event_booking_system_mic.Sql.{Sql}
use event_booking_system_mic.Contracts.{Topic, Message}
use event_booking_system_mic.Common.{
  ℕ, Option, some, min, List, if◌then◌else◌, ◌∷◌, Bool, ◌^◌, Outcome, ok, none, false, ◌-◌, [],
  throws,
}
use event_booking_system_mic.Outbox.{
  OutboxRecord, claim_outbox_messages, mark_outbox_published, record_outbox_failure,
}

-- What a publication throws: an `Error` with its message, or some other value.
pub data PublishFailure : Type 0 where
  error : String → PublishFailure
  not_an_error : PublishFailure

-- The bus, which is Kafka's: what a `publish` does to it, and whether it throws.
pub record Publisher : Type 1 where
  pub Bus : Type 0
  pub publish : Topic → Message → Bus → Outcome PublishFailure (Unit {0}) × Bus

-- `Math.min(300, 2 ** Math.max(0, attempts - 1))`; `-` stops at 0 here as `Math.max` does there.
unfoldable pub backoff_seconds : ℕ → ℕ
backoff_seconds attempts = min 300 (2 ^ (attempts - 1))

-- `error instanceof Error ? error.message : text`, where each service has a text of its own
unfoldable pub error_message : String → PublishFailure → String
error_message text (error m) = m
error_message text not_an_error = text

-- The constants of `dispatchPending` and `publishRecord`.
abbrev pub claim_timeout : ℕ
claim_timeout = 60

abbrev pub max_attempts : ℕ
max_attempts = 8

module _ (sql : Sql) (publisher : Publisher) where
  -- The outbox table and the bus, which a dispatcher works on.
  pub record World : Type 0 where
    pub outbox : sql.Rows OutboxRecord
    pub bus : publisher.Bus

  -- The dispatcher object: its timer's period while it runs, the flag, and its worker id.
  pub record Dispatcher : Type 0 where
    pub interval : Option ℕ
    pub draining : Bool
    pub worker_id : ℕ

  module _ (text : String) where
    -- What `publishRecord` writes once it knows how the publication ended.
    unfoldable pub note_result :
        ℕ
        → ℕ
        → OutboxRecord
        → Outcome PublishFailure (Unit {0})
        → sql.Rows OutboxRecord
        → sql.Rows OutboxRecord
    note_result worker now r (ok _) t = mark_outbox_published sql r.id (some worker) now t
    note_result worker now r (throws e) t =
        record_outbox_failure sql r.id worker (error_message text e) max_attempts
          (backoff_seconds r.attempts) now t

    -- `publishRecord`
    unfoldable pub publish_record : ℕ → ℕ → OutboxRecord → World → World
    publish_record worker now r w =
        let (result, bus) = publisher.publish r.topic r.message w.bus in
        record { outbox = note_result worker now r result w.outbox; bus = bus }

    -- The loop of `dispatchPending`.
    unfoldable pub publish_each : ℕ → ℕ → List OutboxRecord → World → World
    publish_each worker now [] w = w
    publish_each worker now (r ∷ rs) w = publish_each worker now rs (publish_record worker now r w)

    -- `dispatchPending` where the database takes its statements: a second call while one is under way
    -- returns at once, and the flag is cleared at the end of the run.
    unfoldable pub dispatch_pending : ℕ → ℕ → Dispatcher → World → Dispatcher × World
    dispatch_pending limit now d w =
        if d.draining
        then (d, w)
        else let (outbox, rows) =
            claim_outbox_messages sql d.worker_id limit claim_timeout max_attempts now w.outbox in
          (
            record d { draining = false },
            publish_each d.worker_id now rows (record { outbox = outbox; bus = w.bus }),
          )

    -- `start`, with the first run that it makes, and `stop`
    unfoldable pub start : ℕ → ℕ → Dispatcher → World → Dispatcher × World
    start interval_ms now d w = elim d.interval [
      | some _ ↦ (d, w)
      | none ↦
          let (d', w') = dispatch_pending 25 now d w in
          (record d' { interval = some interval_ms }, w')
    ]

    unfoldable pub stop : Dispatcher → Dispatcher
    stop d = elim d.interval [ none ↦ d | some _ ↦ record d { interval = none } ]
