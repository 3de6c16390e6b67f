-- ===== src/Outbox.antt =====
-- The transactional outbox of the booking and the event service: the row, and the three SQL
-- statements that move it (claimOutboxMessages, markOutboxPublished and recordOutboxFailure of
-- services/booking-service/src/modules/bookings/booking.repository.ts, which
-- services/event-service/src/modules/inventory/inventory.repository.ts repeats for its own table).
use Prim.Native.String.{String}
use event_booking_system_mic.Common.{
  ℕ, ◌+◌, ◌*◌, Bool, true, false, ◌&&◌, ◌||◌, Option, none, some, List, [], ◌∷◌, ◌++◌, ◌==◌, ltb,
  leb, if◌then◌else◌,
}
use event_booking_system_mic.Contracts.{Topic, Message}
use event_booking_system_mic.Sql.{Sql, Schema, always}
pub mod Rows
pub mod Claims
pub mod Attempts
pub mod Stuck
pub mod Dispatch
mod Tests

pub data OutboxStatus : Type 0 where
  pending processing published failed : OutboxStatus

pub record OutboxRecord : Type 0 where
  pub id : ℕ
  pub topic : Topic
  pub message_id : ℕ
  pub message : Message
  pub status : OutboxStatus
  pub attempts : ℕ
  pub next_attempt_at : ℕ
  pub claimed_at : Option ℕ
  pub claimed_by : Option ℕ
  pub last_error : Option String
  pub created_at : ℕ
  pub updated_at : ℕ
  pub published_at : Option ℕ

abbrev pub outbox_schema : Schema OutboxRecord
outbox_schema = record { key = λ r. r.id; unique = λ r. some r.message_id }

-- What a caller hands over to be queued: `{ id, topic, message }`.
pub record OutboxInput : Type 0 where
  pub id : ℕ
  pub topic : Topic
  pub message : Message

-- A row as `create` inserts it; the columns that are not given have their defaults.
abbrev pub new_row : ℕ → OutboxInput → OutboxRecord
new_row now o = record {
  id = o.id;
  topic = o.topic;
  message_id = o.message.message_id;
  message = o.message;
  status = pending;
  attempts = 0;
  next_attempt_at = now;
  claimed_at = none;
  claimed_by = none;
  last_error = none;
  created_at = now;
  updated_at = now;
  published_at = none;
}

-- `n * INTERVAL '1 second'`, in milliseconds
abbrev pub seconds : ℕ → ℕ
seconds n = n * 1000

-- `claimed_at < NOW() - timeout`, which a null does not pass
abbrev is_stale : ℕ → ℕ → Option ℕ → Bool
is_stale now timeout none = false
is_stale now timeout (some at) = ltb (at + seconds timeout) now

abbrev is_due : OutboxStatus → ℕ → ℕ → OutboxRecord → Bool
is_due pending now timeout r = leb r.next_attempt_at now
is_due processing now timeout r = is_stale now timeout r.claimed_at
is_due published now timeout r = false
is_due failed now timeout r = false

-- The WHERE clause of `claimable`.
unfoldable pub is_claimable : ℕ → ℕ → ℕ → OutboxRecord → Bool
is_claimable now timeout max_attempts r =
    ltb r.attempts max_attempts && is_due r.status now timeout r

-- The SET clause of the claim.
unfoldable pub claim : ℕ → ℕ → OutboxRecord → OutboxRecord
claim worker now r = record r {
  status = processing;
  attempts = r.attempts + 1;
  claimed_at = some now;
  claimed_by = some worker;
  last_error = none;
  updated_at = now;
}

-- `claimed_by = worker`, which a null does not pass
abbrev pub is_claimed_by : ℕ → OutboxRecord → Bool
is_claimed_by worker r = elim r.claimed_by [ none ↦ false | some w ↦ w == worker ]

-- `worker IS NULL OR claimed_by = worker`
unfoldable pub may_publish : Option ℕ → OutboxRecord → Bool
may_publish none r = true
may_publish (some worker) r = is_claimed_by worker r

unfoldable pub set_published : ℕ → OutboxRecord → OutboxRecord
set_published now r = record r {
  status = published;
  published_at = some now;
  claimed_at = none;
  claimed_by = none;
  last_error = none;
  updated_at = now;
}

abbrev pub is_processing : OutboxStatus → Bool
is_processing processing = true
is_processing pending = false
is_processing published = false
is_processing failed = false

-- `status = 'PROCESSING' AND claimed_by = worker`
unfoldable pub may_fail : ℕ → OutboxRecord → Bool
may_fail worker r = is_processing r.status && is_claimed_by worker r

unfoldable pub set_failure : ℕ → String → ℕ → ℕ → OutboxRecord → OutboxRecord
set_failure now error max_attempts backoff r = record r {
  status = if leb max_attempts r.attempts then failed else pending;
  next_attempt_at = now + seconds backoff;
  claimed_at = none;
  claimed_by = none;
  last_error = some error;
  updated_at = now;
}

module _ (sql : Sql) where
  -- `UPDATE … FROM claimable WHERE outbox.id = claimable.id RETURNING …`
  unfoldable pub claim_each :
      ℕ → ℕ → List ℕ → sql.Rows OutboxRecord → sql.Rows OutboxRecord × List OutboxRecord
  claim_each worker now [] t = (t, [])
  claim_each worker now (k ∷ ks) t =
      let (t₁, row) = sql.update outbox_schema k always (claim worker now) t in
      let (t₂, rows) = claim_each worker now ks t₁ in (t₂, row ++ rows)

  -- `claimOutboxMessages`
  unfoldable pub claim_outbox_messages :
      ℕ → ℕ → ℕ → ℕ → ℕ → sql.Rows OutboxRecord → sql.Rows OutboxRecord × List OutboxRecord
  unfolding claim_each
  claim_outbox_messages worker limit timeout max_attempts now t =
      claim_each worker now
        (sql.select outbox_schema (is_claimable now timeout max_attempts) (λ r. r.created_at) limit
          t)
        t

  -- `markOutboxPublished`
  unfoldable pub mark_outbox_published :
      ℕ → Option ℕ → ℕ → sql.Rows OutboxRecord → sql.Rows OutboxRecord
  mark_outbox_published id worker now t =
      (sql.update outbox_schema id (may_publish worker) (set_published now) t).0

  -- `recordOutboxFailure`
  unfoldable pub record_outbox_failure :
      ℕ → ℕ → String → ℕ → ℕ → ℕ → sql.Rows OutboxRecord → sql.Rows OutboxRecord
  record_outbox_failure id worker error max_attempts backoff now t =
      (sql.update outbox_schema id (may_fail worker) (set_failure now error max_attempts backoff)
        t).0
