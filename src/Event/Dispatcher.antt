-- ===== src/Event/Dispatcher.antt =====
-- `EventOutboxDispatcher`, services/event-service/src/modules/events/event-outbox.dispatcher.ts, on the
-- inventory repository and the bus.
use Prim.Native.String.{String}
pub mod Equivalence
use event_booking_system_mic.Sql.{Sql}
use event_booking_system_mic.Outbox.Dispatch.{
  Publisher, Dispatcher, PublishFailure, claim_timeout, max_attempts, error_message,
  backoff_seconds,
}
use event_booking_system_mic.Common.{
  ℕ, if◌then◌else◌, none, List, some, ◌∷◌, Outcome, [], ok, false, throws,
}
use event_booking_system_mic.Event.Types.{EventDb}
use event_booking_system_mic.Outbox.{OutboxRecord}
use event_booking_system_mic.Event.Inventory.Repository.{
  claim_outbox, mark_published, record_failure,
}

-- What the dispatcher says of a publication that throws no `Error`.
abbrev pub unknown_failure : String
unknown_failure = "Event outbox publish failed"

module _ (sql : Sql) (publisher : Publisher) where
  pub record DispatchWorld : Type 0 where
    pub db : EventDb sql
    pub bus : publisher.Bus

  -- What `publishRecord` calls once it knows how the publication ended.
  unfoldable pub note_event :
      ℕ → ℕ → OutboxRecord → Outcome PublishFailure (Unit {0}) → EventDb sql → EventDb sql
  note_event worker now r (ok _) db = mark_published sql r.id (some worker) now db
  note_event worker now r (throws e) db =
      record_failure sql r.id worker (error_message unknown_failure e) max_attempts
        (backoff_seconds r.attempts) now db

  -- `publishRecord`
  unfoldable pub publish_event : ℕ → ℕ → OutboxRecord → DispatchWorld → DispatchWorld
  publish_event worker now r w =
      let (result, bus) = publisher.publish r.topic r.message w.bus in
      record { db = note_event worker now r result w.db; bus = bus }

  -- The loop of `dispatchPending`.
  unfoldable pub publish_events : ℕ → ℕ → List OutboxRecord → DispatchWorld → DispatchWorld
  publish_events worker now [] w = w
  publish_events worker now (r ∷ rs) w = publish_events worker now rs (publish_event worker now r w)

  -- `dispatchPending`
  unfoldable pub dispatch_events :
      ℕ → ℕ → Dispatcher sql publisher → DispatchWorld → Dispatcher sql publisher × DispatchWorld
  dispatch_events limit now d w =
      if d.draining
      then (d, w)
      else let (rows, db) =
          claim_outbox sql d.worker_id limit claim_timeout max_attempts now w.db in
        (
          record d { draining = false },
          publish_events d.worker_id now rows (record { db = db; bus = w.bus }),
        )

  -- `start`, with the first run that it makes, and `stop`
  unfoldable pub start_events :
      ℕ → ℕ → Dispatcher sql publisher → DispatchWorld → Dispatcher sql publisher × DispatchWorld
  start_events interval_ms now d w = elim d.interval [
    | some _ ↦ (d, w)
    | none ↦
        let (d', w') = dispatch_events 25 now d w in (record d' { interval = some interval_ms }, w')
  ]

  unfoldable pub stop_events : Dispatcher sql publisher → Dispatcher sql publisher
  stop_events d = elim d.interval [ none ↦ d | some _ ↦ record d { interval = none } ]
