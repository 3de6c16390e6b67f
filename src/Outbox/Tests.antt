-- ===== src/Outbox/Tests.antt =====
-- The outbox at concrete inputs.
use mathlib.Core.Path.{subst}
use event_booking_system_mic.Common.{
  ◌≡◌, ◌∷◌, ◌+◌, ℕ, arith, [], ok, none, some, suc, refl, zero, List, ◌≤◌, false,
}
use event_booking_system_mic.Outbox.Dispatch.Settlement.{Settles, dispatch_pending-Settles}
use event_booking_system_mic.Outbox.Dispatch.{World, Publisher, dispatch_pending}
use event_booking_system_mic.Outbox.{
  OutboxRecord, outbox_schema, OutboxStatus, new_row, claim_outbox_messages,
}
use event_booking_system_mic.Outbox.Dispatch.Soundness.{IsSoundTable, dispatch_pending-IsSoundTable}
use event_booking_system_mic.Sql.ListTables.{list_tables}
use event_booking_system_mic.Outbox.Claims.Contract.{Takes, claim_outbox_messages-Takes}
use event_booking_system_mic.Outbox.Stuck.{run_steps, stuck_at_last_attempt}
use event_booking_system_mic.Contracts.{Topic, Payload, canonical}
use event_booking_system_mic.Outbox.Rows.{IsSound, new_row-IsSound}
use event_booking_system_mic.Outbox.Attempts.{times_claimed, OutboxStep, times_claimed_bounded}

abbrev queued : ℕ → OutboxRecord
queued id = new_row 100 (record {
  id = id;
  topic = Topic.booking_cancelled;
  message = record {
    event_id = none;
    message_id = id + 1000;
    correlation_id = 1;
    timestamp = 50;
    version = 1;
    payload =
        Payload.booking_cancelled (record { booking_id = 1; event_id = canonical 9; quantity = 2 });
  };
})

abbrev outbox : list_tables.Rows OutboxRecord
outbox = queued 1 ∷ queued 2 ∷ []

-- One of two rows that are waiting.
claim_outbox_messages-Takes_example :
    Takes list_tables 5 1 60 8 200 outbox (claim_outbox_messages list_tables 5 1 60 8 200 outbox)
claim_outbox_messages-Takes_example = claim_outbox_messages-Takes list_tables 5 1 60 8 200 outbox

-- A bus that takes everything.
abbrev open_bus : Publisher
open_bus = record { Bus = ℕ; publish = λ topic m n. (ok tt, n + 1) }

abbrev world : World list_tables open_bus
world = record { outbox = outbox; bus = 0 }

dispatch_pending-Settles_example :
    Settles list_tables open_bus "Outbox publish failed"
      (λ topic m. ok tt)
      (λ topic m bus. refl)
      5
      200
      outbox
      (dispatch_pending list_tables open_bus "Outbox publish failed" 25 200
        (record { interval = none; draining = false; worker_id = 5 })
        world).1.outbox
dispatch_pending-Settles_example =
    dispatch_pending-Settles list_tables open_bus "Outbox publish failed" (λ topic m. ok tt)
      (λ topic m bus. refl) 5 200 25 none world

outbox-IsSoundTable : IsSoundTable list_tables outbox
outbox-IsSoundTable zero r h = absurd (ground arith)
outbox-IsSoundTable (suc zero) r h =
    subst (λ x. IsSound 8 x) (let same : queued 1 ≡ r = ground (arith, h) in same)
      (new_row-IsSound 8 100 _ (omega arith))
outbox-IsSoundTable (suc (suc zero)) r h =
    subst (λ x. IsSound 8 x) (let same : queued 2 ≡ r = ground (arith, h) in same)
      (new_row-IsSound 8 100 _ (omega arith))
outbox-IsSoundTable (suc (suc (suc j))) r h = absurd (ground arith)

dispatch_pending-IsSoundTable_example :
    IsSoundTable list_tables
      (dispatch_pending list_tables open_bus "Outbox publish failed" 25 200
        (record { interval = none; draining = false; worker_id = 5 })
        world).1.outbox
dispatch_pending-IsSoundTable_example =
    dispatch_pending-IsSoundTable list_tables "Outbox publish failed" open_bus 25 200
      (record { interval = none; draining = false; worker_id = 5 }) world outbox-IsSoundTable

-- The eighth claim of a row, by a worker that crashed.
abbrev crashed : OutboxRecord
crashed = record (queued 1) {
  status = OutboxStatus.processing;
  attempts = 8;
  claimed_at = some 200;
  claimed_by = some 5;
}

-- Another worker claims for an hour, and reports on a row that it does not hold.
abbrev later_steps : List OutboxStep
later_steps =
    OutboxStep.claims 6 25 60 100000
    ∷ OutboxStep.fails 1 6 "down" 1 100010
    ∷ OutboxStep.claims 6 25 60 3600000
    ∷ []

stuck_at_last_attempt_example :
    (list_tables.find outbox_schema 1 (run_steps list_tables 8 later_steps (crashed ∷ []))
      ≡ some crashed)
    × (times_claimed list_tables 8 1 later_steps (crashed ∷ []) ≡ 0)
stuck_at_last_attempt_example =
    stuck_at_last_attempt list_tables 8 1 5 crashed later_steps (crashed ∷ []) refl refl
      (omega arith) (refl, (refl, (refl, tt)))

-- Two workers, one of which fails.
abbrev history : List OutboxStep
history =
    OutboxStep.claims 5 25 60 200
    ∷ OutboxStep.fails 1 5 "down" 1 210
    ∷ OutboxStep.claims 6 25 60 5000
    ∷ OutboxStep.publishes 1 (some 6) 5010
    ∷ OutboxStep.claims 5 25 60 900000
    ∷ []

times_claimed_bounded_example : times_claimed list_tables 8 1 history outbox ≤ 8
times_claimed_bounded_example = times_claimed_bounded list_tables 8 1 history outbox
