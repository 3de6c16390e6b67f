-- ===== src/Event/Inventory/Service.antt =====
-- `InventoryService`, services/event-service/src/modules/inventory/inventory.service.ts: it works on
-- the repository, the cache of events and the bus. The identifiers that `randomUUID` makes are
-- arguments. Logs and metrics are left out.
pub mod Retry
use event_booking_system_mic.Errors.{Thrown, inventory_error, plain_error}
use event_booking_system_mic.Event.Types.{
  RefusalReason, ProcessReleaseSeatsInput, ProcessReserveSeatsInput, Number, EventDb,
  ReserveSeatsResult, ReleaseSeatsResult,
}
use event_booking_system_mic.Contracts.{
  MessageEnvelope, ReserveSeatsPayload, FailureReason, BookingEventQuantity, Message, Topic,
  UuidText, Payload,
}
use event_booking_system_mic.Common.{ℕ, none, Outcome, Option, throws, some, ok}
use event_booking_system_mic.Outbox.Dispatch.{PublishFailure, error, Publisher}
use event_booking_system_mic.Sql.{Sql}
use event_booking_system_mic.Event.Cache.{EventCache}
use event_booking_system_mic.Event.Inventory.Repository.{
  process_reserve_seats_message, positive, process_release_seats_message, mark_published,
}

-- The identifiers that one reservation makes.
pub record FreshIds : Type 0 where
  pub success_outbox_id : ℕ
  pub success_message_id : ℕ
  pub failure_outbox_id : ℕ
  pub failure_message_id : ℕ

-- `InventoryErrors.invalidQuantity()`
abbrev pub invalid_quantity_error : Thrown
invalid_quantity_error = inventory_error (record {
  code = "INVALID_QUANTITY";
  message = "Quantity must be greater than zero";
  status_code = 400;
})

-- What a publication throws, as any other caller sees it.
abbrev pub thrown : PublishFailure → Thrown
thrown (error m) = plain_error m
thrown PublishFailure.not_an_error = Thrown.not_an_error

abbrev pub success_message : ℕ → FreshIds → MessageEnvelope ReserveSeatsPayload → Message
success_message now ids m = record {
  event_id = none;
  message_id = ids.success_message_id;
  correlation_id = m.correlation_id;
  timestamp = now;
  version = 1;
  payload = Payload.seats_reserved (record {
    booking_id = m.payload.booking_id;
    event_id = m.payload.event_id;
    quantity = m.payload.quantity;
  });
}

-- `result.reason === "EVENT_NOT_FOUND" ? "EVENT_NOT_FOUND" : "INSUFFICIENT_SEATS"`
abbrev pub failed_for : RefusalReason → FailureReason
failed_for RefusalReason.event_not_found = FailureReason.event_not_found
failed_for _ = FailureReason.insufficient_seats

abbrev pub failed_message :
    ℕ → FreshIds → MessageEnvelope ReserveSeatsPayload → RefusalReason → Message
failed_message now ids m reason = record {
  event_id = none;
  message_id = ids.failure_message_id;
  correlation_id = m.correlation_id;
  timestamp = now;
  version = 1;
  payload = Payload.seat_reservation_failed (record {
    booking_id = m.payload.booking_id;
    event_id = m.payload.event_id;
    reason = failed_for reason;
  });
}

abbrev pub reserve_input :
    ℕ → FreshIds → MessageEnvelope ReserveSeatsPayload → ProcessReserveSeatsInput
reserve_input now ids m = record {
  message_id = m.message_id;
  event_id = m.payload.event_id;
  quantity = Number.nat m.payload.quantity;
  outbox_on_success = some (record {
    id = ids.success_outbox_id;
    topic = Topic.seats_reserved;
    message_id = ids.success_message_id;
    message = success_message now ids m;
  });
  outbox_on_failure = some (record {
    id = ids.failure_outbox_id;
    topic = Topic.seat_reservation_failed;
    message_id = ids.failure_message_id;
    correlation_id = m.correlation_id;
    booking_id = m.payload.booking_id;
  });
}

abbrev pub release_input : MessageEnvelope BookingEventQuantity → ProcessReleaseSeatsInput
release_input m = record {
  message_id = m.message_id;
  event_id = m.payload.event_id;
  quantity = Number.nat m.payload.quantity;
}

module _ (sql : Sql) (cache : EventCache) (publisher : Publisher) where
  pub record InventoryWorld : Type 0 where
    pub db : EventDb sql
    pub cached : cache.State
    pub bus : publisher.Bus

  -- `invalidateCache`
  unfoldable pub invalidate : UuidText → InventoryWorld → InventoryWorld
  invalidate id w = elim (cache.del id w.cached) [ throws _ ↦ w | ok s ↦ record w { cached = s } ]

  -- `await publisher.publish(…)`, then `if (result.outboxRowId) await repository.markOutboxPublished(…)`
  unfoldable pub publish_now :
      ℕ → Topic → Message → Option ℕ → InventoryWorld → Outcome Thrown (Unit {0}) × InventoryWorld
  publish_now now topic m row w =
      let (r, bus) = publisher.publish topic m w.bus in
      let w' : InventoryWorld = record w { bus = bus } in
      elim r [
        | throws e ↦ (throws (thrown e), w')
        | ok _ ↦ elim row [
          | none ↦ (ok tt, w')
          | some id ↦ (ok tt, record w' { db = mark_published sql id none now w.db })
        ]
      ]

  -- The rest of `reserveSeats`, from the repository's answer.
  unfoldable pub finish_reserve :
      ℕ
      → FreshIds
      → MessageEnvelope ReserveSeatsPayload
      → Outcome Thrown ReserveSeatsResult
      → InventoryWorld
      → Outcome Thrown (Unit {0}) × InventoryWorld
  finish_reserve now ids m (throws e) w = (throws e, w)
  finish_reserve now ids m (ok ReserveSeatsResult.duplicate) w = (ok tt, w)
  finish_reserve now ids m (ok (ReserveSeatsResult.refused reason row)) w =
      publish_now now Topic.seat_reservation_failed (failed_message now ids m reason) row w
  finish_reserve now ids m (ok (ReserveSeatsResult.reserved _ row)) w =
      publish_now now Topic.seats_reserved (success_message now ids m) row
        (invalidate m.payload.event_id w)

  -- `reserveSeats`
  unfoldable pub reserve_seats :
      ℕ
      → FreshIds
      → MessageEnvelope ReserveSeatsPayload
      → InventoryWorld
      → Outcome Thrown (Unit {0}) × InventoryWorld
  reserve_seats now ids m w =
      let (r, db) = process_reserve_seats_message sql now (reserve_input now ids m) w.db in
      finish_reserve now ids m r (record w { db = db })

  -- The rest of `releaseSeats`, from the repository's answer.
  unfoldable pub finish_release :
      UuidText
      → ReleaseSeatsResult
      → InventoryWorld
      → Outcome Thrown ReleaseSeatsResult × InventoryWorld
  finish_release id (ReleaseSeatsResult.released e) w =
      (ok (ReleaseSeatsResult.released e), invalidate id w)
  finish_release id r w = (ok r, w)

  -- `releaseSeats`
  unfoldable pub release_seats :
      ℕ
      → MessageEnvelope BookingEventQuantity
      → InventoryWorld
      → Outcome Thrown ReleaseSeatsResult × InventoryWorld
  release_seats now m w = elim (positive (Number.nat m.payload.quantity)) [
    | none ↦ (throws invalid_quantity_error, w)
    | some _ ↦
        let (r, db) = process_release_seats_message sql now (release_input m) w.db in
        finish_release m.payload.event_id r (record w { db = db })
  ]
