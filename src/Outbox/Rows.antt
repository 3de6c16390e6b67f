-- ===== src/Outbox/Rows.antt =====
-- The life of one outbox row: what each statement does to it, and how retries end.
use Prim.Native.String.{String}
use event_booking_system_mic.Outbox.{
  is_claimable, set_failure, set_published, claim, OutboxRecord, OutboxInput, pending, new_row,
  processing, failed, published,
}
use event_booking_system_mic.Common.{ℕ, ◌≤◌, ◌<◌, arith, ◌≡◌, true, is_some, ◌≢◌, none}

-- What every row satisfies: no attempt beyond the limit, claimed exactly while PROCESSING, waiting
-- only while attempts are left, and given up only when none is.
pub record IsSound (max_attempts : ℕ) (r : OutboxRecord) : Type 0 where
  pub capped : r.attempts ≤ max_attempts
  pub claimed : r.status ≡ processing → is_some r.claimed_by ≡ true
  pub tried : r.status ≡ processing → 1 ≤ r.attempts
  pub unclaimed : r.status ≢ processing → r.claimed_by ≡ none
  pub retriable : r.status ≡ pending → r.attempts < max_attempts
  pub exhausted : r.status ≡ failed → r.attempts ≡ max_attempts
  pub dated : r.status ≡ published → is_some r.published_at ≡ true

pub new_row-IsSound :
    (max_attempts now : ℕ) (o : OutboxInput)
    → 0 < max_attempts
    → IsSound max_attempts (new_row now o)
new_row-IsSound max_attempts now o h = ground arith

pub claim-IsSound :
    (max_attempts worker now timeout : ℕ) (r : OutboxRecord)
    → is_claimable now timeout max_attempts r ≡ true
    → IsSound max_attempts r
    → IsSound max_attempts (claim worker now r)
unfolding claim is_claimable
claim-IsSound max_attempts worker now timeout r c h = ground arith

pub set_published-IsSound :
    (max_attempts now : ℕ) (r : OutboxRecord)
    → IsSound max_attempts r
    → IsSound max_attempts (set_published now r)
unfolding set_published
set_published-IsSound max_attempts now r h = ground arith

pub set_failure-IsSound :
    (max_attempts now backoff : ℕ) (error : String) (r : OutboxRecord)
    → IsSound max_attempts r
    → IsSound max_attempts (set_failure now error max_attempts backoff r)
unfolding set_failure
set_failure-IsSound max_attempts now backoff error r h = ground arith

-- A waiting row is claimable as soon as its time has come.
pub claimable_when_due :
    (max_attempts now timeout : ℕ) (r : OutboxRecord)
    → IsSound max_attempts r
    → r.status ≡ pending
    → r.next_attempt_at ≤ now
    → is_claimable now timeout max_attempts r ≡ true
unfolding is_claimable
claimable_when_due max_attempts now timeout r h p d = ground arith
