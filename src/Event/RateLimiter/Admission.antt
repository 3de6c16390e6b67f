-- ===== src/Event/RateLimiter/Admission.antt =====
-- How many requests of a window the fallback lets through, with the requests of other keys in between.
use mathlib.Core.Path.{subst}
use event_booking_system_mic.Common.{
  ◌∙◌, ℕ, List, ◌∷◌, ◌++◌, if◌then◌else◌, ◌≡◌, some, All, ◌<◌, ◌≤◌, min, length, ◌+◌, ◌-◌, none, [],
  arith, ◌==◌, false, ==_iff, inl, inr, Bool-cases, sym, refl,
}
use event_booking_system_mic.Event.RateLimiter.{
  expire, bump, is_rejected, Entry, find_entry, consume_fallback,
}
use event_booking_system_mic.Event.RateLimiter.Window.{
  consume_fallback-alive, find_entry-consume_fallback, find_entry-expire, length-append,
  length-bump, length-expire-le,
}

-- The requests of one key, and those of the others.
unfoldable pub asked : ℕ → List (ℕ × ℕ) → ℕ
asked key [] = 0
asked key ((k, now) ∷ rs) = let rest = asked key rs in if k == key then rest + 1 else rest

unfoldable pub others : ℕ → List (ℕ × ℕ) → ℕ
others key [] = 0
others key ((k, now) ∷ rs) = let rest = others key rs in if k == key then rest else rest + 1

find_entry-bump_other :
    (key k : ℕ) (es : List Entry)
    → (k == key) ≡ false
    → find_entry key (bump k es) ≡ find_entry key es
unfolding find_entry bump
find_entry-bump_other key k [] h = refl
find_entry-bump_other key k (x ∷ es) h =
    ground (arith, find_entry-bump_other key k es h, ==_iff key x.key, ==_iff k x.key, ==_iff k key)

find_entry-append_other :
    (key : ℕ) (es : List Entry) (x : Entry) {e : Entry}
    → find_entry key es ≡ some e
    → find_entry key (es ++ (x ∷ [])) ≡ some e
unfolding find_entry
find_entry-append_other key [] x h = absurd (ground arith)
find_entry-append_other key (y ∷ es) x {e} h =
    ground (arith, find_entry-append_other key es x {e = e})

module _ (window max_entries : ℕ) where
  find_entry-consume_other :
      (key k now : ℕ) (store : List Entry) {e : Entry}
      → (k == key) ≡ false
      → find_entry key store ≡ some e
      → now < e.reset_at
      → length store < max_entries
      → find_entry key (consume_fallback window max_entries k now store).1 ≡ some e
  unfolding consume_fallback
  find_entry-consume_other key k now store {e} other f l room =
      let live = expire now store in
      let x : Entry = record { key = k; count = 1; reset_at = now + window } in
      let alive = find_entry-expire key now store f l in
      ground (
        arith,
        alive,
        length-expire-le now store,
        find_entry-bump_other key k live other,
        find_entry-append_other key live x alive,
      )

  length-consume_fallback-le :
      (k now : ℕ) (store : List Entry)
      → length store < max_entries
      → length (consume_fallback window max_entries k now store).1 ≤ length store + 1
  unfolding consume_fallback
  length-consume_fallback-le k now store room =
      let live = expire now store in
      let x : Entry = record { key = k; count = 1; reset_at = now + window } in
      ground (arith, length-expire-le now store, length-bump k live, length-append live x)

  length-consume_alive-le :
      (k now : ℕ) (store : List Entry) {e : Entry}
      → find_entry k store ≡ some e
      → now < e.reset_at
      → length (consume_fallback window max_entries k now store).1 ≤ length store
  unfolding consume_fallback
  length-consume_alive-le k now store f l =
      let live = expire now store in
      ground
        (arith, find_entry-expire k now store f l, length-expire-le now store, length-bump k live)

  module _ (max_requests key : ℕ) where
    -- How many requests of one key, among these of any keys and one after the other, are not
    -- rejected; a request is its key and its time.
    unfoldable pub admitted : List (ℕ × ℕ) → List Entry → ℕ
    admitted [] store = 0
    admitted ((k, now) ∷ rs) store =
        let (c, after) = consume_fallback window max_entries k now store in
        let rest = admitted rs after in
        if k == key then (if is_rejected max_requests c then rest else rest + 1) else rest

    admitted_step :
        (now : ℕ) (rs : List (ℕ × ℕ)) (store : List Entry) (n : ℕ)
        → (consume_fallback window max_entries key now store).0.requests ≡ n + 1
        → admitted rs (consume_fallback window max_entries key now store).1
          ≡ min (asked key rs) (max_requests - (n + 1))
        → admitted ((key, now) ∷ rs) store ≡ min (asked key rs + 1) (max_requests - n)
    unfolding admitted is_rejected
    admitted_step now rs store n c rest = ground (arith, c, rest, ==_iff key key)

    admitted-alive :
        (rs : List (ℕ × ℕ)) (store : List Entry) (e : Entry)
        → find_entry key store ≡ some e
        → All (λ r. r.1 < e.reset_at) rs
        → length store + others key rs ≤ max_entries
        → admitted rs store ≡ min (asked key rs) (max_requests - e.count)
    unfolding admitted asked others
    admitted-alive [] store e f all room = ground arith
    admitted-alive ((k, now) ∷ rs) store e f (soon, all) room = elim (Bool-cases (k == key)) [
      | inl same ↦
          let (n, r) = consume_fallback-alive window max_entries key now store f soon in
          let after = (consume_fallback window max_entries key now store).1 in
          let (e', f', n', r') = find_entry-consume_fallback window max_entries key now store in
          let rest =
            admitted-alive rs after e' f' (subst (λ x. All (λ r. r.1 < x) rs) (sym (r' ∙ r)) all)
              (ground (arith, same, room, length-consume_alive-le key now store f soon)) in
          let own = admitted_step now rs store e.count n (rw (← n, ← n') rest) in
          subst
            (λ j.
              admitted ((j, now) ∷ rs) store
              ≡ min (asked key ((j, now) ∷ rs)) (max_requests - e.count))
            (let e : key ≡ k = ground (arith, same, ==_iff k key) in e)
            (ground (arith, own, ==_iff key key))
      | inr other ↦
          let after = (consume_fallback window max_entries k now store).1 in
          let free : length store < max_entries = ground (arith, other, room) in
          let rest =
            admitted-alive rs after e (find_entry-consume_other key k now store other f soon free)
              all (ground (arith, other, room, length-consume_fallback-le k now store free)) in
          ground (arith, other, rest)
    ]

    consume_fallback-new :
        (now : ℕ) (store : List Entry)
        → find_entry key (expire now store) ≡ none
        → ((consume_fallback window max_entries key now store).0.requests ≡ 0 + 1)
          × ((consume_fallback window max_entries key now store).0.reset_at ≡ now + window)
    unfolding consume_fallback
    consume_fallback-new now store f = (ground (arith, f), ground (arith, f))

    -- Where a key has no request left in the store, and the store has room for the key and for one
    -- entry more for every request of another key: of a request of the key and those of it that
    -- follow before the window of the first one is over, however many requests of other keys come in
    -- between, as many are let through as the maximum allows, and no fewer.
    pub admitted_exactly :
        (now : ℕ) (rs : List (ℕ × ℕ)) (store : List Entry)
        → find_entry key (expire now store) ≡ none
        → All (λ r. r.1 < now + window) rs
        → length store + others key rs < max_entries
        → admitted ((key, now) ∷ rs) store ≡ min (asked key rs + 1) max_requests
    admitted_exactly now rs store f all room =
        let (n, r) = consume_fallback-new now store f in
        let after = (consume_fallback window max_entries key now store).1 in
        let (e, f', n', r') = find_entry-consume_fallback window max_entries key now store in
        let grown = length-consume_fallback-le key now store (omega (arith, room)) in
        let rest =
          admitted-alive rs after e f' (subst (λ x. All (λ r. r.1 < x) rs) (sym (r' ∙ r)) all)
            (omega (arith, grown, room)) in
        let own = admitted_step now rs store 0 n (rw (← n, ← n') rest) in ground (arith, own)
