-- ===== src/Outbox/Attempts.antt =====
-- The three statements on the outbox in any order, by any number of workers, and how often one row
-- is handed out to be published.
use Prim.Native.String.{String}
use event_booking_system_mic.Common.{
  ℕ, Option, List, ◌∷◌, some, Bool, ◌-◌, ◌+◌, if◌then◌else◌, ◌≡◌, none, ◌==◌, [], ◌≤◌, Option-cases,
  ◌&&◌, inl, is_some, arith, ==_iff, inr, refl, ap, Bool-cases,
}
use event_booking_system_mic.Sql.{Sql, IsDistinct, mem}
use event_booking_system_mic.Outbox.{
  OutboxRecord, claim, claim_outbox_messages, is_claimable, mark_outbox_published, outbox_schema,
  record_outbox_failure, set_published, set_failure, may_publish, may_fail,
}
use event_booking_system_mic.Outbox.Claims.{claimed_rows, claim_outbox_messages-Claimed}

pub data OutboxStep : Type 0 where
  -- worker, limit, timeout and time of a claim
  claims : ℕ → ℕ → ℕ → ℕ → OutboxStep
  -- id, worker and time of a publication
  publishes : ℕ → Option ℕ → ℕ → OutboxStep
  -- id, worker, error, back-off and time of a failure
  fails : ℕ → ℕ → String → ℕ → ℕ → OutboxStep

-- How many of some rows have an id.
unfoldable pub count : ℕ → List OutboxRecord → ℕ
count j [] = 0
count j (r ∷ rs) = let rest = count j rs in if j == r.id then rest + 1 else rest

-- The attempts that are left of a row.
abbrev pub left_of : ℕ → Option OutboxRecord → ℕ
left_of max_attempts none = 0
left_of max_attempts (some r) = max_attempts - r.attempts

module _ (sql : Sql) (max_attempts : ℕ) where
  -- A step, and the rows that it hands out.
  unfoldable pub take_step :
      OutboxStep → sql.Rows OutboxRecord → sql.Rows OutboxRecord × List OutboxRecord
  take_step (OutboxStep.claims worker limit timeout now) t =
      claim_outbox_messages sql worker limit timeout max_attempts now t
  take_step (OutboxStep.publishes id worker now) t = (mark_outbox_published sql id worker now t, [])
  take_step (OutboxStep.fails id worker error backoff now) t =
      (record_outbox_failure sql id worker error max_attempts backoff now t, [])

  -- How often a row is handed out along some steps.
  unfoldable pub times_claimed : ℕ → List OutboxStep → sql.Rows OutboxRecord → ℕ
  times_claimed j [] t = 0
  times_claimed j (s ∷ ss) t =
      let (t', rows) = take_step s t in count j rows + times_claimed j ss t'

  count-claimed_rows :
      (worker now : ℕ) (ks : List ℕ) (t : sql.Rows OutboxRecord) (j : ℕ)
      → IsDistinct ks
      → count j (claimed_rows sql worker now ks t)
        ≡ (if mem j ks && is_some (sql.find outbox_schema j t) then 1 else 0)
  unfolding count claim
  count-claimed_rows worker now [] t j d = refl
  count-claimed_rows worker now (k ∷ ks) t j d =
      let rest = count-claimed_rows worker now ks t j d.1 in
      elim (Option-cases (sql.find outbox_schema k t)) [
        | inl e ↦ ground (arith, e, rest, ==_iff j k)
        | inr (r, e) ↦ ground (arith, e, rest, ==_iff j k, sql.find-key outbox_schema k t e, d.0)
      ]

  claim-left :
      (worker limit timeout now : ℕ) (t : sql.Rows OutboxRecord) (j : ℕ)
      → let (t', rows) = claim_outbox_messages sql worker limit timeout max_attempts now t in
        count j rows + left_of max_attempts (sql.find outbox_schema j t')
        ≤ left_of max_attempts (sql.find outbox_schema j t)
  unfolding claim is_claimable
  claim-left worker limit timeout now t j =
      let did = claim_outbox_messages-Claimed sql worker limit timeout max_attempts now t in
      let counted = count-claimed_rows worker now did.ids t j did.distinct in
      let rows = did.rows j in
      let answer = ap (count j) did.answer in
      elim (Bool-cases (mem j did.ids)) [
        | inr m ↦ ground (arith, rows, answer, counted, m)
        | inl m ↦ elim (Option-cases (sql.find outbox_schema j t)) [
          | inl e ↦ ground (arith, rows, answer, counted, m, e)
          | inr (r, e) ↦ ground (arith, rows, answer, counted, m, e, did.claimable j m)
        ]
      ]

  update-left :
      (k : ℕ) (p : OutboxRecord → Bool) (f : OutboxRecord → OutboxRecord)
      (t : sql.Rows OutboxRecord) (j : ℕ)
      → ((r : OutboxRecord) → (f r).id ≡ r.id)
      → ((r : OutboxRecord) → (f r).attempts ≡ r.attempts)
      → left_of max_attempts (sql.find outbox_schema j (sql.update outbox_schema k p f t).0)
        ≡ left_of max_attempts (sql.find outbox_schema j t)
  update-left k p f t j id same =
      let known = sql.find-update outbox_schema k p f t j id in
      elim (Option-cases (sql.find outbox_schema j t)) [
        | inl e ↦ ground (arith, known, e, ==_iff j k)
        | inr (r, e) ↦ ground (arith, known, e, ==_iff j k, same r)
      ]

  take_step-left :
      (s : OutboxStep) (t : sql.Rows OutboxRecord) (j : ℕ)
      → let (t', rows) = take_step s t in
        count j rows + left_of max_attempts (sql.find outbox_schema j t')
        ≤ left_of max_attempts (sql.find outbox_schema j t)
  unfolding take_step count mark_outbox_published record_outbox_failure set_published set_failure
  take_step-left (OutboxStep.claims worker limit timeout now) t j =
      claim-left worker limit timeout now t j
  take_step-left (OutboxStep.publishes id worker now) t j =
      let same =
        update-left id (may_publish worker) (set_published now) t j (λ r. refl) (λ r. refl) in
      omega (arith, same)
  take_step-left (OutboxStep.fails id worker error backoff now) t j =
      let same =
        update-left id (may_fail worker) (set_failure now error max_attempts backoff) t j
          (λ r. refl) (λ r. refl) in
      omega (arith, same)

  -- Along any steps of any workers, at any times, a row is handed out to be published at most as
  -- often as it has attempts left, and a row that is not in the table never.
  pub times_claimed_bounded :
      (j : ℕ) (steps : List OutboxStep) (t : sql.Rows OutboxRecord)
      → times_claimed j steps t ≤ left_of max_attempts (sql.find outbox_schema j t)
  unfolding times_claimed
  times_claimed_bounded j [] t = omega arith
  times_claimed_bounded j (s ∷ ss) t =
      let (t', rows) = take_step s t in
      let rest = times_claimed_bounded j ss t' in
      let step = take_step-left s t j in omega (arith, rest, step)
