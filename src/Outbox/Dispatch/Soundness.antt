-- ===== src/Outbox/Dispatch/Soundness.antt =====
-- The soundness of the outbox rows under the dispatcher and its statements.
use Prim.Native.String.{String}
use mathlib.Core.Path.{subst}
use event_booking_system_mic.Sql.{Sql, mem, updated}
use event_booking_system_mic.Outbox.{
  OutboxRecord, outbox_schema, mark_outbox_published, claim_outbox_messages, record_outbox_failure,
  set_published, set_failure, may_publish, may_fail, claim,
}
use event_booking_system_mic.Outbox.Dispatch.{
  note_result, dispatch_pending, publish_each, Publisher, publish_record, Dispatcher, max_attempts,
  World, claim_timeout, PublishFailure, error_message, backoff_seconds,
}
use event_booking_system_mic.Common.{
  ℕ, Bool, Option, List, true, ◌∷◌, Bool-cases, Outcome, [], false, inl, Option-cases, ok, arith,
  inr, some, throws, none, refl,
}
use event_booking_system_mic.Outbox.Claims.{claim_outbox_messages-Claimed}
use event_booking_system_mic.Outbox.Rows.{
  set_failure-IsSound, set_published-IsSound, IsSound, claim-IsSound,
}
use event_booking_system_mic.Common.{◌≡◌, if◌then◌else◌, ◌==◌}

module _ (sql : Sql) where
  -- Every row of the table is sound.
  abbrev pub IsSoundTable : sql.Rows OutboxRecord → Type 0
  IsSoundTable t =
      (j : ℕ) (r : OutboxRecord) → sql.find outbox_schema j t ≡ some r → IsSound max_attempts r

module _ (sql : Sql) (text : String) where
  updated-IsSound :
      (p : OutboxRecord → Bool) (f : OutboxRecord → OutboxRecord) (o : Option OutboxRecord)
      (r : OutboxRecord)
      → ((x : OutboxRecord) → o ≡ some x → (p x ≡ true) → IsSound max_attempts (f x))
      → ((x : OutboxRecord) → o ≡ some x → IsSound max_attempts x)
      → updated p f o ≡ some r
      → IsSound max_attempts r
  updated-IsSound p f none r moved all h = absurd (ground arith)
  updated-IsSound p f (some x) r moved all h = elim (Bool-cases (p x)) [
    | inl e ↦
        subst (λ z. IsSound max_attempts z) (let same : f x ≡ r = ground (arith, e) in same)
          (moved x refl e)
    | inr e ↦
        subst (λ z. IsSound max_attempts z) (let same : x ≡ r = ground (arith, e) in same)
          (all x refl)
  ]

  update-IsSoundTable :
      (k : ℕ) (p : OutboxRecord → Bool) (f : OutboxRecord → OutboxRecord)
      (t : sql.Rows OutboxRecord)
      → ((r : OutboxRecord) → (f r).id ≡ r.id)
      → ((r : OutboxRecord) → p r ≡ true → IsSound max_attempts r → IsSound max_attempts (f r))
      → IsSoundTable sql t
      → IsSoundTable sql (sql.update outbox_schema k p f t).0
  update-IsSoundTable k p f t keeps sound all j r h =
      let known = sql.find-update outbox_schema k p f t j keeps in
      elim (Bool-cases (j == k)) [
        | inl e ↦
            updated-IsSound p f (sql.find outbox_schema k t) r (λ x g c. sound x c (all k x g))
              (all k) (ground (arith, e, known, h))
        | inr e ↦ all j r (ground (arith, e, known, h))
      ]

  note_result-IsSoundTable :
      (worker now : ℕ) (r : OutboxRecord) (result : Outcome PublishFailure (Unit {0}))
      (publisher : Publisher) (t : sql.Rows OutboxRecord)
      → IsSoundTable sql t
      → IsSoundTable sql (note_result sql publisher text worker now r result t)
  unfolding note_result mark_outbox_published record_outbox_failure set_published set_failure
  note_result-IsSoundTable worker now r (ok _) publisher t all =
      update-IsSoundTable r.id (may_publish (some worker)) (set_published now) t (λ x. refl)
        (λ x c s. set_published-IsSound max_attempts now x s) all
  note_result-IsSoundTable worker now r (throws e) publisher t all =
      update-IsSoundTable r.id (may_fail worker)
        (set_failure now (error_message text e) max_attempts (backoff_seconds r.attempts)) t
        (λ x. refl)
        (λ x c s.
          set_failure-IsSound max_attempts now (backoff_seconds r.attempts) (error_message text e) x
            s)
        all

  publish_each-IsSoundTable :
      (publisher : Publisher) (worker now : ℕ) (rs : List OutboxRecord) (w : World sql publisher)
      → IsSoundTable sql w.outbox
      → IsSoundTable sql (publish_each sql publisher text worker now rs w).outbox
  unfolding publish_each publish_record
  publish_each-IsSoundTable publisher worker now [] w all = all
  publish_each-IsSoundTable publisher worker now (r ∷ rs) w all =
      publish_each-IsSoundTable publisher worker now rs
        (publish_record sql publisher text worker now r w)
        (note_result-IsSoundTable worker now r (publisher.publish r.topic r.message w.bus).0
          publisher w.outbox all)

  claim_outbox_messages-IsSoundTable :
      (worker limit timeout now : ℕ) (t : sql.Rows OutboxRecord)
      → IsSoundTable sql t
      → IsSoundTable sql (claim_outbox_messages sql worker limit timeout max_attempts now t).0
  claim_outbox_messages-IsSoundTable worker limit timeout now t all j r h =
      let did = claim_outbox_messages-Claimed sql worker limit timeout max_attempts now t in
      elim (Bool-cases (mem j did.ids)) [
        | inl e ↦ elim (Option-cases (sql.find outbox_schema j t)) [
          | inl g ↦ absurd (ground (arith, did.rows j))
          | inr (x, g) ↦
              subst (λ z. IsSound max_attempts z)
                (let same : claim worker now x ≡ r = ground (arith, did.rows j) in same)
                (claim-IsSound max_attempts worker now timeout x (ground (arith, did.claimable j e))
                  (all j x g))
        ]
        | inr e ↦ all j r (ground (arith, did.rows j))
      ]

  if-IsSoundTable :
      (publisher : Publisher) (b : Bool) (x y : Dispatcher sql publisher × World sql publisher)
      → IsSoundTable sql x.1.outbox
      → IsSoundTable sql y.1.outbox
      → IsSoundTable sql (if b then x else y).1.outbox
  if-IsSoundTable publisher true x y h k = h
  if-IsSoundTable publisher false x y h k = k

  -- One run of the dispatcher keeps every row of the outbox sound, whether it is draining already or
  -- not and whatever the publisher answers.
  pub dispatch_pending-IsSoundTable :
      (publisher : Publisher) (limit now : ℕ) (d : Dispatcher sql publisher)
      (w : World sql publisher)
      → IsSoundTable sql w.outbox
      → IsSoundTable sql (dispatch_pending sql publisher text limit now d w).1.outbox
  unfolding dispatch_pending
  dispatch_pending-IsSoundTable publisher limit now d w all =
      let (outbox, rows) =
        claim_outbox_messages sql d.worker_id limit claim_timeout max_attempts now w.outbox in
      if-IsSoundTable publisher d.draining (d, w)
        (
          record d { draining = false },
          publish_each sql publisher text d.worker_id now rows
              (record { outbox = outbox; bus = w.bus }),
        )
        all
        (publish_each-IsSoundTable publisher d.worker_id now rows
          (record { outbox = outbox; bus = w.bus })
          (claim_outbox_messages-IsSoundTable d.worker_id limit claim_timeout now w.outbox all))
