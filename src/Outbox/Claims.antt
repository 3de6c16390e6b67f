-- ===== src/Outbox/Claims.antt =====
-- What `claimOutboxMessages` does to the table, and which rows it returns.
use mathlib.Core.Option
pub mod Contract
use event_booking_system_mic.Sql.{Sql, always, IsDistinct, mem, holds}
use event_booking_system_mic.Outbox.{
  claim_outbox_messages, OutboxRecord, claim, is_claimable, claim_each, outbox_schema,
}
use event_booking_system_mic.Common.{
  ℕ, List, Bool, ◌∷◌, All, ◌≡◌, length, arith, [], ap, false, ◌≤◌, ◌⊎◌, true, ==_iff, refl, none,
  if◌then◌else◌, some, ◌==◌,
}

module _ (sql : Sql) where
  -- The rows of some ids, as a worker has claimed them.
  abbrev pub claimed_rows : ℕ → ℕ → List ℕ → sql.Rows OutboxRecord → List OutboxRecord
  claimed_rows worker now [] t = []
  claimed_rows worker now (k ∷ ks) t = elim (sql.find outbox_schema k t) [
    | none ↦ claimed_rows worker now ks t
    | some r ↦ claim worker now r ∷ claimed_rows worker now ks t
  ]

  module _ (worker now : ℕ) where
    abbrev claim_one : ℕ → sql.Rows OutboxRecord → sql.Rows OutboxRecord
    claim_one k t = (sql.update outbox_schema k always (claim worker now) t).0

    find-claim_one :
        (k : ℕ) (t : sql.Rows OutboxRecord) (j : ℕ)
        → sql.find outbox_schema j (claim_one k t) ≡ (
            if j == k
            then Option.map (claim worker now) (sql.find outbox_schema k t)
            else sql.find outbox_schema j t)
    unfolding claim
    find-claim_one k t j =
        let known = sql.find-update outbox_schema k always (claim worker now) t j (λ r. refl) in
        ground (arith, known)

    claimed_rows-claim_one :
        (k : ℕ) (ks : List ℕ) (t : sql.Rows OutboxRecord)
        → mem k ks ≡ false
        → claimed_rows worker now ks (claim_one k t) ≡ claimed_rows worker now ks t
    claimed_rows-claim_one k [] t h = refl
    claimed_rows-claim_one k (j ∷ js) t h =
        ground (arith, find-claim_one k t j, claimed_rows-claim_one k js t, ==_iff k j, ==_iff j k)

    -- Exactly the rows of the ids are claimed.
    pub find-claim_each :
        (ks : List ℕ) (t : sql.Rows OutboxRecord) (j : ℕ)
        → IsDistinct ks
        → sql.find outbox_schema j (claim_each sql worker now ks t).0 ≡ (
            if mem j ks
            then Option.map (claim worker now) (sql.find outbox_schema j t)
            else sql.find outbox_schema j t)
    unfolding claim_each
    find-claim_each [] t j d = refl
    find-claim_each (k ∷ ks) t j d =
        ground (arith, find-claim_each ks (claim_one k t) j d.1, find-claim_one k t j, ==_iff j k)

    -- They are what it returns, in the order of the ids.
    pub returned-claim_each :
        (ks : List ℕ) (t : sql.Rows OutboxRecord)
        → IsDistinct ks
        → (claim_each sql worker now ks t).1 ≡ claimed_rows worker now ks t
    unfolding claim_each
    returned-claim_each [] t d = refl
    returned-claim_each (k ∷ ks) t d = ground (
      arith,
      returned-claim_each ks (claim_one k t) d.1,
      claimed_rows-claim_one k ks t d.0,
      sql.update-returned outbox_schema k always (claim worker now) t,
    )

    length-claimed_rows-le :
        (ks : List ℕ) (t : sql.Rows OutboxRecord)
        → length (claimed_rows worker now ks t) ≤ length ks
    length-claimed_rows-le [] t = omega arith
    length-claimed_rows-le (k ∷ ks) t = ground (arith, length-claimed_rows-le ks t)

  mem-All :
      (q : OutboxRecord → Bool) (t : sql.Rows OutboxRecord) (ks : List ℕ) (j : ℕ)
      → All (λ k. holds q (sql.find outbox_schema k t) ≡ true) ks
      → mem j ks ≡ true
      → holds q (sql.find outbox_schema j t) ≡ true
  mem-All q t [] j h m = absurd (ground arith)
  mem-All q t (k ∷ ks) j h m = ground (arith, mem-All q t ks j h.1, ==_iff j k, h.0)

  -- What one claim has done, in terms of the ids that it has selected.
  pub record Claimed (worker limit timeout max_attempts now : ℕ) (before : sql.Rows OutboxRecord)
      (end : sql.Rows OutboxRecord × List OutboxRecord) : Type 0 where
    pub ids : List ℕ
    pub distinct : IsDistinct ids
    pub claimable :
        (j : ℕ)
        → mem j ids ≡ true
        → holds (is_claimable now timeout max_attempts) (sql.find outbox_schema j before) ≡ true
    pub rows :
        (j : ℕ)
        → sql.find outbox_schema j end.0 ≡ (
            if mem j ids
            then Option.map (claim worker now) (sql.find outbox_schema j before)
            else sql.find outbox_schema j before)
    pub answer : end.1 ≡ claimed_rows worker now ids before
    pub bounded : length end.1 ≤ limit
    pub complete :
        (j : ℕ)
        → holds (is_claimable now timeout max_attempts) (sql.find outbox_schema j before) ≡ true
        → (mem j ids ≡ true) ⊎ (length ids ≡ limit)

  pub claim_outbox_messages-Claimed :
      (worker limit timeout max_attempts now : ℕ) (t : sql.Rows OutboxRecord)
      → Claimed worker limit timeout max_attempts now t
          (claim_outbox_messages sql worker limit timeout max_attempts now t)
  unfolding claim_outbox_messages
  claim_outbox_messages-Claimed worker limit timeout max_attempts now t =
      let q = is_claimable now timeout max_attempts in
      let ids = sql.select outbox_schema q (λ r. r.created_at) limit t in
      let d = sql.select-distinct outbox_schema q (λ r. r.created_at) limit t in
      let answer = returned-claim_each worker now ids t d in
      record {
        ids = ids;
        distinct = d;
        claimable =
            λ j. mem-All q t ids j (sql.select-holds outbox_schema q (λ r. r.created_at) limit t);
        rows = λ j. find-claim_each worker now ids t j d;
        answer = answer;
        complete = λ j. sql.select-all outbox_schema q (λ r. r.created_at) limit t j;
        bounded = omega (
          arith,
          ap length answer,
          length-claimed_rows-le worker now ids t,
          sql.length-select outbox_schema q (λ r. r.created_at) limit t,
        );
      }
