-- ===== src/Outbox/Dispatch/Settlement.antt =====
-- What one run of the dispatcher leaves of each row that it claimed, where the bus's answer to a
-- message does not change during the run.
use Prim.Native.String.{String}
use event_booking_system_mic.Common.{
  ◌∷◌, ℕ, Outcome, ◌≡◌, ok, throws, refl, true, some, eq_refl, if◌then◌else◌, ◌==◌, arith, List,
  Option, false, ◌∷◌, Option-cases, inl, ==_iff, inr, [],
}
use mathlib.Core.Option
use event_booking_system_mic.Sql.{Sql, IsDistinct, mem, holds}
use event_booking_system_mic.Outbox.Dispatch.{
  Publisher, PublishFailure, note_result, error_message, max_attempts, backoff_seconds,
  dispatch_pending, publish_each, publish_record, World, claim_timeout,
}
use event_booking_system_mic.Contracts.{Topic, Message}
use event_booking_system_mic.Outbox.{
  OutboxRecord, may_publish, claim, may_fail, set_published, mark_outbox_published,
  record_outbox_failure, set_failure, outbox_schema, is_claimable, claim_outbox_messages,
}
use event_booking_system_mic.Outbox.Claims.{claimed_rows, claim_outbox_messages-Claimed}

-- A claimed row after its publication was noted.
unfoldable pub settle : String → ℕ → Outcome PublishFailure (Unit {0}) → OutboxRecord → OutboxRecord
settle text now (ok _) r = set_published now r
settle text now (throws e) r =
    set_failure now (error_message text e) max_attempts (backoff_seconds r.attempts) r

module _ (sql : Sql) (publisher : Publisher) (text : String)
    (verdict : Topic → Message → Outcome PublishFailure (Unit {0}))
    (steady : (topic : Topic) (m : Message) (bus : publisher.Bus)
      → (publisher.publish topic m bus).0 ≡ verdict topic m)
    (worker now : ℕ) where
  -- A row that was claimed and settled in the run.
  abbrev pub settled : OutboxRecord → OutboxRecord
  settled r = let c = claim worker now r in settle text now (verdict c.topic c.message) c

  claim-claimed_by : (r : OutboxRecord) → may_publish (some worker) (claim worker now r) ≡ true
  unfolding may_publish claim
  claim-claimed_by r = eq_refl worker

  claim-may_fail : (r : OutboxRecord) → may_fail worker (claim worker now r) ≡ true
  unfolding may_fail claim
  claim-may_fail r = eq_refl worker

  claim-id : (r : OutboxRecord) → (claim worker now r).id ≡ r.id
  unfolding claim
  claim-id r = refl

  find-note_result :
      (r : OutboxRecord) (t : sql.Rows OutboxRecord) (k : ℕ)
      (result : Outcome PublishFailure (Unit {0})) (j : ℕ)
      → r.id ≡ k
      → sql.find outbox_schema k t ≡ some (claim worker now r)
      → sql.find outbox_schema j
          (note_result sql publisher text worker now (claim worker now r) result t)
        ≡ (if j == k
            then some (settle text now result (claim worker now r))
            else sql.find outbox_schema j t)
  unfolding note_result settle mark_outbox_published record_outbox_failure set_published set_failure
  find-note_result r t k (ok u) j e f =
      let c = claim worker now r in
      let known =
        sql.find-update outbox_schema c.id (may_publish (some worker)) (set_published now) t j
          (λ x. refl) in
      ground (arith, known, claim-claimed_by r, claim-id r)
  find-note_result r t k (throws x) j e f =
      let c = claim worker now r in
      let known =
        sql.find-update outbox_schema c.id (may_fail worker)
          (set_failure now (error_message text x) max_attempts (backoff_seconds c.attempts)) t j
          (λ x. refl) in
      ground (arith, known, claim-may_fail r, claim-id r)

  find-publish_record :
      (k : ℕ) (r : OutboxRecord) (w : World sql publisher) (j : ℕ)
      → r.id ≡ k
      → sql.find outbox_schema k w.outbox ≡ some (claim worker now r)
      → sql.find outbox_schema j
          (publish_record sql publisher text worker now (claim worker now r) w).outbox
        ≡ (if j == k then some (settled r) else sql.find outbox_schema j w.outbox)
  unfolding publish_record
  find-publish_record k r w j e f =
      let c = claim worker now r in
      let noted =
        find-note_result r w.outbox k (publisher.publish c.topic c.message w.bus).0 j e f in
      rw (noted, steady c.topic c.message w.bus) refl

  publish_claimed :
      (k : ℕ) (r : OutboxRecord) (ks : List ℕ) (t : sql.Rows OutboxRecord)
      → sql.find outbox_schema k t ≡ some r
      → claimed_rows sql worker now (k ∷ ks) t
        ≡ (claim worker now r ∷ claimed_rows sql worker now ks t)
  publish_claimed k r ks t e = ground (arith, e)

  -- The rows of the ids are settled as each publication ends, one after the other.
  find-publish_each :
      (ks : List ℕ) (t : sql.Rows OutboxRecord) (w : World sql publisher) (j : ℕ)
      → IsDistinct ks
      → ((k : ℕ)
          → mem k ks ≡ true
          → sql.find outbox_schema k w.outbox
            ≡ Option.map (claim worker now) (sql.find outbox_schema k t))
      → sql.find outbox_schema j
          (publish_each sql publisher text worker now (claimed_rows sql worker now ks t) w).outbox
        ≡ (if mem j ks
            then Option.map settled (sql.find outbox_schema j t)
            else sql.find outbox_schema j w.outbox)
  unfolding publish_each
  find-publish_each [] t w j d h = refl
  find-publish_each (k ∷ ks) t w j d h = elim (Option-cases (sql.find outbox_schema k t)) [
    | inl e ↦
        let rest = find-publish_each ks t w j d.1 (λ x m. h x (ground (arith, m))) in
        ground (arith, rest, e, h k (ground (arith, eq_refl k)), ==_iff j k)
    | inr (r, e) ↦
        let w' = publish_record sql publisher text worker now (claim worker now r) w in
        let id = sql.find-key outbox_schema k t e in
        let found : sql.find outbox_schema k w.outbox ≡ some (claim worker now r) =
          ground (arith, e, h k (ground (arith, eq_refl k))) in
        let step = λ (x : ℕ). find-publish_record k r w x id found in
        let rest =
          find-publish_each ks t w' j d.1
            (λ x m. ground (arith, d.0, m, step x, ==_iff x k, h x (ground (arith, m)))) in
        ground (arith, rest, publish_claimed k r ks t e, step j, e, ==_iff j k, d.0)
  ]

  -- What one run leaves: each row that it claimed is settled as the bus answered, and every other row
  -- is as it was.
  pub record Settles (before end : sql.Rows OutboxRecord) : Type 0 where
    pub ids : List ℕ
    pub distinct : IsDistinct ids
    pub claimable :
        (j : ℕ)
        → mem j ids ≡ true
        → holds (is_claimable now claim_timeout max_attempts) (sql.find outbox_schema j before)
          ≡ true
    pub rows :
        (j : ℕ)
        → sql.find outbox_schema j end ≡ (
            if mem j ids
            then Option.map settled (sql.find outbox_schema j before)
            else sql.find outbox_schema j before)

  -- Where the bus's answer to a message does not change during the run, a run of a dispatcher that is
  -- not draining leaves every row that it claimed, each of which was claimable, settled as the bus
  -- answered: PUBLISHED, or FAILED or PENDING again with the error and a later date. Every other row
  -- is as it was.
  pub dispatch_pending-Settles :
      (limit : ℕ) (interval : Option ℕ) (w : World sql publisher)
      → Settles w.outbox
          (dispatch_pending sql publisher text limit now
            (record { interval = interval; draining = false; worker_id = worker })
            w).1.outbox
  unfolding dispatch_pending
  dispatch_pending-Settles limit interval w =
      let did =
        claim_outbox_messages-Claimed sql worker limit claim_timeout max_attempts now w.outbox in
      let end = claim_outbox_messages sql worker limit claim_timeout max_attempts now w.outbox in
      record {
        ids = did.ids;
        distinct = did.distinct;
        claimable = did.claimable;
        rows = λ j.
            let known =
              find-publish_each did.ids w.outbox (record { outbox = end.0; bus = w.bus }) j
                did.distinct (λ k m. ground (arith, m, did.rows k)) in
            rw (did.answer, known) (ground (arith, did.rows j));
      }
