-- ===== src/Outbox/Claims/Contract.antt =====
-- One claim of `claimOutboxMessages` in terms of the rows that it returns.
use mathlib.Core.Option
use mathlib.Core.Path.{subst}
use event_booking_system_mic.Sql.{Sql, IsDistinct, mem, holds, holds_found}
use event_booking_system_mic.Outbox.{
  OutboxRecord, OutboxStatus, claim, claim_outbox_messages, is_claimable, is_due, is_stale,
  outbox_schema, pending, processing,
}
use event_booking_system_mic.Outbox.Claims.{claim_outbox_messages-Claimed, claimed_rows}
use event_booking_system_mic.Common.{
  ℕ, List, ◌∷◌, [], All, ◌≡◌, ◌≤◌, ◌<◌, ◌+◌, ◌*◌, ◌⊎◌, inl, inr, Option, some, none, map, length,
  true, false, arith, refl, eq_refl, ap, ◌∙◌, sym,
}

-- A row that the WHERE clause of the claim is for: with attempts left, and either waiting since its time
-- has come, or claimed longer ago than the timeout, which is in seconds.
pub record IsWaiting (timeout max_attempts now : ℕ) (r : OutboxRecord) : Type 0 where
  pub left : r.attempts < max_attempts
  pub due :
      ((r.status ≡ OutboxStatus.pending) × (r.next_attempt_at ≤ now))
      ⊎ ((r.status ≡ OutboxStatus.processing)
          × (at : ℕ) × (r.claimed_at ≡ some at)
          × (at + timeout * 1000 < now))

-- A row as a worker has claimed it.
pub record IsTaken (worker now : ℕ) (before after : OutboxRecord) : Type 0 where
  pub status : after.status ≡ OutboxStatus.processing
  pub owner : after.claimed_by ≡ some worker
  pub claimed : after.claimed_at ≡ some now
  pub attempts : after.attempts ≡ before.attempts + 1
  pub message : after.message ≡ before.message
  pub topic : after.topic ≡ before.topic

claim-IsTaken : (worker now : ℕ) (r : OutboxRecord) → IsTaken worker now r (claim worker now r)
unfolding claim
claim-IsTaken worker now r = ground arith

is_stale-found :
    (now timeout : ℕ) (o : Option ℕ)
    → is_stale now timeout o ≡ true
    → (at : ℕ) × (o ≡ some at) × (at + timeout * 1000 < now)
is_stale-found now timeout none h = absurd (ground arith)
is_stale-found now timeout (some at) h = (at, refl, ground arith)

-- The WHERE clause lets through exactly the rows that are waiting.
is_claimable-IsWaiting :
    (timeout max_attempts now : ℕ) (r : OutboxRecord)
    → is_claimable now timeout max_attempts r ≡ true
    → IsWaiting timeout max_attempts now r
unfolding is_claimable
is_claimable-IsWaiting timeout max_attempts now r h = record {
  left = ground (arith, h);
  due = is_due-waiting r.status (ground (arith, h));
}
  where
    is_due-waiting :
        (s : OutboxStatus)
        → is_due s now timeout r ≡ true
        → ((s ≡ OutboxStatus.pending) × (r.next_attempt_at ≤ now))
          ⊎ ((s ≡ OutboxStatus.processing)
              × (at : ℕ) × (r.claimed_at ≡ some at)
              × (at + timeout * 1000 < now))
    is_due-waiting pending h = inl (refl, ground arith)
    is_due-waiting processing h =
        let (at, c, l) = is_stale-found now timeout r.claimed_at h in inr (refl, at, c, l)
    is_due-waiting OutboxStatus.published h = absurd (ground arith)
    is_due-waiting OutboxStatus.failed h = absurd (ground arith)

IsWaiting-is_claimable :
    (timeout max_attempts now : ℕ) (r : OutboxRecord)
    → IsWaiting timeout max_attempts now r
    → is_claimable now timeout max_attempts r ≡ true
unfolding is_claimable
IsWaiting-is_claimable timeout max_attempts now r w = elim w.due [
  | inl (s, d) ↦ ground (arith, w.left, s, d)
  | inr (s, at, c, l) ↦ ground (arith, w.left, s, c, l)
]

module _ (sql : Sql) where
  -- What a claim has done to the table `before`, with what it has left and the rows that it has
  -- returned.
  pub record Takes (worker limit timeout max_attempts now : ℕ) (before : sql.Rows OutboxRecord)
      (end : sql.Rows OutboxRecord × List OutboxRecord) : Type 0 where
    pub distinct : IsDistinct (map (λ r. r.id) end.1)
    pub taken :
        All
          (λ r'.
            (sql.find outbox_schema r'.id end.0 ≡ some r')
            × (r : OutboxRecord) × (sql.find outbox_schema r'.id before ≡ some r)
            × IsWaiting timeout max_attempts now r
            × IsTaken worker now r r')
          end.1
    pub others :
        (j : ℕ)
        → mem j (map (λ r. r.id) end.1) ≡ false
        → sql.find outbox_schema j end.0 ≡ sql.find outbox_schema j before
    pub bounded : length end.1 ≤ limit
    pub complete :
        (j : ℕ) {r : OutboxRecord}
        → sql.find outbox_schema j before ≡ some r
        → IsWaiting timeout max_attempts now r
        → (mem j (map (λ r. r.id) end.1) ≡ true) ⊎ (length end.1 ≡ limit)

  All-mem : {P : ℕ → Type 0} (ks : List ℕ) → ((k : ℕ) → mem k ks ≡ true → P k) → All P ks
  All-mem [] h = tt
  All-mem {P} (k ∷ ks) h =
      (h k (ground (arith, eq_refl k)), All-mem {P = P} ks (λ j m. h j (ground (arith, m))))

  length-ids : (rs : List OutboxRecord) → length (map (λ r. r.id) rs) ≡ length rs
  length-ids [] = refl
  length-ids (r ∷ rs) = ground (arith, length-ids rs)

  module _ (worker timeout max_attempts now : ℕ) (before end : sql.Rows OutboxRecord) where
    -- What the claim of one id comes to.
    abbrev Claims : ℕ → Type 0
    Claims k =
        (holds (is_claimable now timeout max_attempts) (sql.find outbox_schema k before) ≡ true)
        × (sql.find outbox_schema k end
            ≡ Option.map (claim worker now) (sql.find outbox_schema k before))

    -- What is said of each row that is returned.
    abbrev Returns : OutboxRecord → Type 0
    Returns r' =
        (sql.find outbox_schema r'.id end ≡ some r')
        × (r : OutboxRecord) × (sql.find outbox_schema r'.id before ≡ some r)
        × IsWaiting timeout max_attempts now r
        × IsTaken worker now r r'

    claimed_rows-ids :
        (ks : List ℕ) → All Claims ks → map (λ r. r.id) (claimed_rows sql worker now ks before) ≡ ks
    unfolding claim
    claimed_rows-ids [] h = refl
    claimed_rows-ids (k ∷ ks) ((c, _), h) =
        let (r, f, _) =
          holds_found (is_claimable now timeout max_attempts) (sql.find outbox_schema k before) c in
        ground (arith, f, claimed_rows-ids ks h, sql.find-key outbox_schema k before f)

    claim-Returns :
        (k : ℕ) (r : OutboxRecord)
        → sql.find outbox_schema k before ≡ some r
        → is_claimable now timeout max_attempts r ≡ true
        → sql.find outbox_schema k end
          ≡ Option.map (claim worker now) (sql.find outbox_schema k before)
        → Returns (claim worker now r)
    unfolding claim
    claim-Returns k r f w e =
        let id = sql.find-key outbox_schema k before f in
        (
          ap (λ j. sql.find outbox_schema j end) id ∙ e ∙ ap (Option.map (claim worker now)) f,
          r,
          ap (λ j. sql.find outbox_schema j before) id ∙ f,
          is_claimable-IsWaiting timeout max_attempts now r w,
          claim-IsTaken worker now r,
        )

    claimed_rows-Returns :
        (ks : List ℕ) → All Claims ks → All Returns (claimed_rows sql worker now ks before)
    claimed_rows-Returns [] h = tt
    claimed_rows-Returns (k ∷ ks) ((c, e), h) =
        let (r, f, w) =
          holds_found (is_claimable now timeout max_attempts) (sql.find outbox_schema k before) c in
        rw (claimed_rows, f) (claim-Returns k r f w e, claimed_rows-Returns ks h)

  -- One claim takes distinct rows, no more than the limit, and returns each as it has left it in the
  -- table: every one had attempts left and was either PENDING and due, or PROCESSING for longer than
  -- the timeout, and is now PROCESSING for the worker since this time, with one attempt more and the
  -- same message and topic. No other row has changed, and where fewer than the limit are taken, no row
  -- that was waiting is left out.
  pub claim_outbox_messages-Takes :
      (worker limit timeout max_attempts now : ℕ) (t : sql.Rows OutboxRecord)
      → Takes worker limit timeout max_attempts now t
          (claim_outbox_messages sql worker limit timeout max_attempts now t)
  claim_outbox_messages-Takes worker limit timeout max_attempts now t =
      let did = claim_outbox_messages-Claimed sql worker limit timeout max_attempts now t in
      let end = claim_outbox_messages sql worker limit timeout max_attempts now t in
      let all =
        All-mem {P = Claims worker timeout max_attempts now t end.0} did.ids
          (λ k m. (did.claimable k m, ground (arith, did.rows k, m))) in
      let same =
        ap (map (λ r. r.id)) did.answer
        ∙ claimed_rows-ids worker timeout max_attempts now t end.0 did.ids all in
      record {
        distinct = rw same did.distinct;
        taken =
            subst (All (Returns worker timeout max_attempts now t end.0)) (sym did.answer)
              (claimed_rows-Returns worker timeout max_attempts now t end.0 did.ids all);
        others = λ j m. ground (arith, did.rows j, m, same);
        bounded = did.bounded;
        complete = λ j f w.
            let found =
              did.complete j
                (ground (arith, f, IsWaiting-is_claimable timeout max_attempts now _ w)) in
            elim found [
              | inl m ↦ inl (ap (mem j) same ∙ m)
              | inr l ↦ inr (sym (length-ids end.1) ∙ ap length same ∙ l)
            ];
      }
