-- ===== src/Outbox/Stuck.antt =====
-- A row whose last claim has no end: its worker stopped before it could publish or record a failure.
use event_booking_system_mic.Common.{
  ℕ, List, ◌∷◌, [], All, Bool, ◌≡◌, ◌≤◌, ◌==◌, ◌&&◌, some, none, false, arith, ==_iff, refl,
}
use event_booking_system_mic.Sql.{Sql}
use event_booking_system_mic.Outbox.{
  OutboxRecord, claim_outbox_messages, is_claimable, mark_outbox_published, may_fail, may_publish,
  outbox_schema, record_outbox_failure, set_failure, set_published,
}
use event_booking_system_mic.Outbox.Attempts.{
  OutboxStep, take_step, times_claimed, times_claimed_bounded,
}
use event_booking_system_mic.Outbox.Claims.{claim_outbox_messages-Claimed}

-- Whether a step is the worker's own report on a row, or a publication that names no worker.
abbrev pub is_report : ℕ → ℕ → OutboxStep → Bool
is_report j owner (OutboxStep.claims _ _ _ _) = false
is_report j owner (OutboxStep.publishes id none _) = id == j
is_report j owner (OutboxStep.publishes id (some worker) _) = id == j && worker == owner
is_report j owner (OutboxStep.fails id worker _ _ _) = id == j && worker == owner

module _ (sql : Sql) (max_attempts : ℕ) where
  -- The table after some steps.
  unfoldable pub run_steps : List OutboxStep → sql.Rows OutboxRecord → sql.Rows OutboxRecord
  run_steps [] t = t
  run_steps (s ∷ ss) t = run_steps ss (take_step sql max_attempts s t).0

  module _ (j owner : ℕ) (r : OutboxRecord) (spent : max_attempts ≤ r.attempts)
      (owned : r.claimed_by ≡ some owner) where
    claim-stuck :
        (worker limit timeout now : ℕ) (t : sql.Rows OutboxRecord)
        → sql.find outbox_schema j t ≡ some r
        → sql.find outbox_schema j
            (claim_outbox_messages sql worker limit timeout max_attempts now t).0
          ≡ some r
    unfolding is_claimable
    claim-stuck worker limit timeout now t f =
        let did = claim_outbox_messages-Claimed sql worker limit timeout max_attempts now t in
        ground (arith, did.rows j, did.claimable j, f)

    take_step-stuck :
        (s : OutboxStep) (t : sql.Rows OutboxRecord)
        → is_report j owner s ≡ false
        → sql.find outbox_schema j t ≡ some r
        → sql.find outbox_schema j (take_step sql max_attempts s t).0 ≡ some r
    unfolding take_step mark_outbox_published record_outbox_failure set_published set_failure
        may_publish may_fail
    take_step-stuck (OutboxStep.claims worker limit timeout now) t other f =
        claim-stuck worker limit timeout now t f
    take_step-stuck (OutboxStep.publishes id none now) t other f = ground (
      arith,
      sql.find-update outbox_schema id (may_publish none) (set_published now) t j (λ x. refl),
      f,
      other,
      ==_iff id j,
      ==_iff j id,
    )
    take_step-stuck (OutboxStep.publishes id (some worker) now) t other f = ground (
      arith,
      sql.find-update outbox_schema id (may_publish (some worker)) (set_published now) t j
          (λ x. refl),
      f,
      other,
      owned,
      ==_iff id j,
      ==_iff j id,
      ==_iff worker owner,
      ==_iff owner worker,
    )
    take_step-stuck (OutboxStep.fails id worker error backoff now) t other f = ground (
      arith,
      sql.find-update outbox_schema id (may_fail worker)
          (set_failure now error max_attempts backoff) t j (λ x. refl),
      f,
      other,
      owned,
      ==_iff id j,
      ==_iff j id,
      ==_iff worker owner,
      ==_iff owner worker,
    )

    run_steps-stuck :
        (steps : List OutboxStep) (t : sql.Rows OutboxRecord)
        → All (λ s. is_report j owner s ≡ false) steps
        → sql.find outbox_schema j t ≡ some r
        → sql.find outbox_schema j (run_steps steps t) ≡ some r
    unfolding run_steps
    run_steps-stuck [] t others f = f
    run_steps-stuck (s ∷ ss) t (other, others) f =
        run_steps-stuck ss (take_step sql max_attempts s t).0 others (take_step-stuck s t other f)

  -- A row that a worker holds with all its attempts used up stays exactly as it is, its status
  -- included, and is never handed out again, along any steps of any workers at any times in which
  -- its holder does not report on it and nobody publishes it without naming a worker.
  pub stuck_at_last_attempt :
      (j owner : ℕ) (r : OutboxRecord) (steps : List OutboxStep) (t : sql.Rows OutboxRecord)
      → sql.find outbox_schema j t ≡ some r
      → r.claimed_by ≡ some owner
      → max_attempts ≤ r.attempts
      → All (λ s. is_report j owner s ≡ false) steps
      → (sql.find outbox_schema j (run_steps steps t) ≡ some r)
        × (times_claimed sql max_attempts j steps t ≡ 0)
  stuck_at_last_attempt j owner r steps t f owned spent others =
      let bound = times_claimed_bounded sql max_attempts j steps t in
      (run_steps-stuck j owner r spent owned steps t others f, ground (arith, bound, f, spent))
