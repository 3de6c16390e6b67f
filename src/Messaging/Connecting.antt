-- ===== src/Messaging/Connecting.antt =====
-- How often `start` tries, and how long it waits.
use mathlib.Core.Path.{subst}
use event_booking_system_mic.Common.{
  ◌-◌, ◌+◌, ◌*◌, ◌≡◌, ◌<◌, ◌≤◌, ℕ, Outcome, suc, zero, is_ok, false, true, ok, some, arith, none,
  refl,
}
use event_booking_system_mic.Errors.{Thrown}
use event_booking_system_mic.Messaging.{connect_from, Runner, max_connect_attempts, start}

module _ (connect : ℕ → Outcome Thrown (Unit {0})) where
  -- What the loop sleeps from one attempt on, over so many failures.
  abbrev pub backoff : ℕ → ℕ → ℕ
  backoff attempt zero = 0
  backoff attempt (suc n) = 1000 * attempt + backoff (attempt + 1) n

  connect_from_succeeds :
      (left attempt n k : ℕ) (r : Runner)
      → k ≡ attempt + n
      → n < left
      → k ≤ max_connect_attempts
      → ((i : ℕ) → attempt ≤ i → i < k → is_ok (connect i) ≡ false)
      → is_ok (connect k) ≡ true
      → connect_from connect left attempt r
        ≡ (ok tt, record { running = true; consumer = some k; slept = r.slept + backoff attempt n })
  unfolding connect_from
  connect_from_succeeds zero attempt n k r e l m h g = absurd (ground arith)
  connect_from_succeeds (suc left) attempt zero k r e l m h g =
      let same : k ≡ attempt = ground (arith, e) in
      let here : is_ok (connect attempt) ≡ true = subst (λ i. is_ok (connect i) ≡ true) same g in
      ground (arith, here, same)
  connect_from_succeeds (suc left) attempt (suc n) k r e l m h g =
      let r' : Runner = record r { consumer = none; slept = r.slept + 1000 * attempt } in
      let later =
        connect_from_succeeds left (attempt + 1) n k r' (omega (arith, e)) (omega (arith, l)) m
          (λ i a b. h i (omega (arith, a)) b) g in
      ground (arith, later, h attempt (omega arith) (omega (arith, e)), e, m)

  -- Where the first attempt that ends well is number `k`, of at most ten, `start` of a runner that does
  -- not run yet returns after that attempt, with its consumer and running, and has slept one second
  -- more after each failure than after the one before.
  pub start_succeeds :
      (k : ℕ) (r : Runner)
      → r.running ≡ false
      → 1 ≤ k
      → k ≤ max_connect_attempts
      → ((i : ℕ) → 1 ≤ i → i < k → is_ok (connect i) ≡ false)
      → is_ok (connect k) ≡ true
      → start connect r
        ≡ (ok tt, record { running = true; consumer = some k; slept = r.slept + backoff 1 (k - 1) })
  unfolding start
  start_succeeds k r s l m h g =
      let end =
        connect_from_succeeds max_connect_attempts 1 (k - 1) k r (omega (arith, l))
          (omega (arith, l, m)) m h g in
      ground (arith, end, s)

  connect_from_gives_up :
      (left attempt : ℕ) (r : Runner)
      → attempt + left ≡ max_connect_attempts
      → ((i : ℕ) → attempt ≤ i → i ≤ max_connect_attempts → is_ok (connect i) ≡ false)
      → (is_ok (connect_from connect (suc left) attempt r).0 ≡ false)
        × ((connect_from connect (suc left) attempt r).1 ≡ record {
          running = r.running;
          consumer = none;
          slept = r.slept + backoff attempt left;
        })
  unfolding connect_from
  connect_from_gives_up zero attempt r e h =
      ground (arith, h attempt (omega arith) (omega (arith, e)), e)
  connect_from_gives_up (suc left) attempt r e h =
      let r' : Runner = record r { consumer = none; slept = r.slept + 1000 * attempt } in
      let later =
        connect_from_gives_up left (attempt + 1) r' (omega (arith, e))
          (λ i a b. h i (omega (arith, a)) b) in
      ground (arith, later.0, later.1, h attempt (omega arith) (omega (arith, e)), e)

  -- Where ten attempts fail, `start` throws after 45 seconds of sleep and the runner does not run.
  pub start_gives_up :
      (r : Runner)
      → r.running ≡ false
      → ((i : ℕ) → 1 ≤ i → i ≤ max_connect_attempts → is_ok (connect i) ≡ false)
      → (is_ok (start connect r).0 ≡ false)
        × ((start connect r).1
            ≡ record { running = false; consumer = none; slept = r.slept + 45000 })
  unfolding start
  start_gives_up r s h =
      let end = connect_from_gives_up 9 1 r refl h in ground (arith, end.0, end.1, s)
