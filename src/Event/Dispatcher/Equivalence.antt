-- ===== src/Event/Dispatcher/Equivalence.antt =====
-- The dispatcher of the event service beside the one of `Outbox.Dispatch`.
use event_booking_system_mic.Common.{◌∷◌, ◌≡◌, ℕ, List, [], arith, refl}
use event_booking_system_mic.Sql.{Sql}
use event_booking_system_mic.Outbox.Dispatch.{
  Publisher, dispatch_pending, publish_record, publish_each, World, note_result, Dispatcher,
  claim_timeout, max_attempts,
}
use event_booking_system_mic.Event.Dispatcher.{
  publish_event, publish_events, DispatchWorld, dispatch_events, note_event, unknown_failure,
}
use event_booking_system_mic.Event.Types.{EventDb}
use event_booking_system_mic.Event.Inventory.Repository.{
  claim_outbox, mark_published, record_failure,
}
use event_booking_system_mic.Outbox.{OutboxRecord, claim_outbox_messages}

module _ (sql : Sql) (publisher : Publisher) where
  -- The outbox of the database, with the bus.
  abbrev pub outbox_of : DispatchWorld sql publisher → World sql publisher
  outbox_of w = record { outbox = w.db.outbox; bus = w.bus }

  -- A database with another outbox, and a bus.
  abbrev pub with_outbox : EventDb sql → World sql publisher → DispatchWorld sql publisher
  with_outbox db o = record { db = record db { outbox = o.outbox }; bus = o.bus }

  publish_event-with_outbox :
      (worker now : ℕ) (r : OutboxRecord) (db : EventDb sql) (o : World sql publisher)
      → publish_event sql publisher worker now r (with_outbox db o)
        ≡ with_outbox db (publish_record sql publisher unknown_failure worker now r o)
  unfolding publish_event publish_record note_event note_result mark_published record_failure
  publish_event-with_outbox worker now r db o = ground (arith)

  publish_events-with_outbox :
      (worker now : ℕ) (rs : List OutboxRecord) (db : EventDb sql) (o : World sql publisher)
      → publish_events sql publisher worker now rs (with_outbox db o)
        ≡ with_outbox db (publish_each sql publisher unknown_failure worker now rs o)
  unfolding publish_events publish_each
  publish_events-with_outbox worker now [] db o = refl
  publish_events-with_outbox worker now (r ∷ rs) db o =
      rw (publish_event-with_outbox worker now r db o) (
        publish_events-with_outbox worker now rs db
          (publish_record sql publisher unknown_failure worker now r o))

  -- A run of the event service's dispatcher does to the outbox of the database and to the bus what the
  -- run of the shared dispatcher does, and to nothing else in the database.
  pub dispatch_events-with_outbox :
      (limit now : ℕ) (d : Dispatcher sql publisher) (w : DispatchWorld sql publisher)
      → let (d', o) = dispatch_pending sql publisher unknown_failure limit now d (outbox_of w) in
        dispatch_events sql publisher limit now d w ≡ (d', with_outbox w.db o)
  unfolding dispatch_events dispatch_pending claim_outbox
  dispatch_events-with_outbox limit now d w =
      let end =
        claim_outbox_messages sql d.worker_id limit claim_timeout max_attempts now w.db.outbox in
      ground (
        arith,
        publish_events-with_outbox d.worker_id now end.1 w.db
            (record { outbox = end.0; bus = w.bus }),
      )
