-- ===== src/Event/RateLimiter/Window.antt =====
-- The counts of a window, and the bound on the entries.
use event_booking_system_mic.Common.{
  ◌∷◌, ◌++◌, ◌+◌, ◌-◌, ◌≤◌, ◌<◌, ◌≡◌, ℕ, List, some, none, ◌∙◌, length, [], drop, arith,
  Option-cases, ap, inl, refl, inr,
}
use event_booking_system_mic.Event.RateLimiter.{consume_fallback, bump, expire, find_entry, Entry}

pub length-expire-le : (now : ℕ) (es : List Entry) → length (expire now es) ≤ length es
unfolding expire
length-expire-le now [] = omega arith
length-expire-le now (e ∷ es) = ground (arith, length-expire-le now es)

pub length-bump : (key : ℕ) (es : List Entry) → length (bump key es) ≡ length es
unfolding bump
length-bump key [] = refl
length-bump key (e ∷ es) = ground (arith, length-bump key es)

pub length-append : (es : List Entry) (e : Entry) → length (es ++ (e ∷ [])) ≡ length es + 1
length-append [] e = refl
length-append (x ∷ es) e = ground (arith, length-append es e)

length-drop_one : (es : List Entry) → length (drop 1 es) ≡ length es - 1
length-drop_one [] = refl
length-drop_one (e ∷ es) = ground arith

-- Where at least one entry may be kept and the entries are within the bound, they are so after any
-- request.
pub consume_fallback_bounded :
    (window max_entries key now : ℕ) (store : List Entry)
    → 1 ≤ max_entries
    → length store ≤ max_entries
    → length (consume_fallback window max_entries key now store).1 ≤ max_entries
unfolding consume_fallback
consume_fallback_bounded window max_entries key now store h l =
    let live = expire now store in
    let e : Entry = record { key = key; count = 1; reset_at = now + window } in
    ground (
      arith,
      length-expire-le now store,
      length-bump key live,
      length-append live e,
      length-append (drop 1 live) e,
      length-drop_one live,
    )

find_entry-bump :
    (key : ℕ) (es : List Entry) {e : Entry}
    → find_entry key es ≡ some e
    → find_entry key (bump key es) ≡ some (record e { count = e.count + 1 })
unfolding find_entry bump
find_entry-bump key [] h = absurd (ground arith)
find_entry-bump key (x ∷ es) {e} h = ground (arith, find_entry-bump key es {e = e})

find_entry-append :
    (key : ℕ) (es : List Entry) (e : Entry)
    → find_entry key es ≡ none
    → key ≡ e.key
    → find_entry key (es ++ (e ∷ [])) ≡ some e
unfolding find_entry
find_entry-append key [] e h k = ground arith
find_entry-append key (x ∷ es) e h k = ground (arith, find_entry-append key es e)

find_entry-drop_one :
    (key : ℕ) (es : List Entry) → find_entry key es ≡ none → find_entry key (drop 1 es) ≡ none
unfolding find_entry
find_entry-drop_one key [] h = refl
find_entry-drop_one key (e ∷ es) h = ground arith

pub find_entry-expire :
    (key now : ℕ) (es : List Entry) {e : Entry}
    → find_entry key es ≡ some e
    → now < e.reset_at
    → find_entry key (expire now es) ≡ some e
unfolding find_entry expire
find_entry-expire key now [] h l = absurd (ground arith)
find_entry-expire key now (x ∷ es) {e} h l = ground (arith, find_entry-expire key now es {e = e})

-- The entry that a request leaves for its key is what it was answered.
pub find_entry-consume_fallback :
    (window max_entries key now : ℕ) (store : List Entry)
    → let (c, after) = consume_fallback window max_entries key now store in
      (e : Entry) × (find_entry key after ≡ some e)
      × (e.count ≡ c.requests)
      × (e.reset_at ≡ c.reset_at)
unfolding consume_fallback
find_entry-consume_fallback window max_entries key now store =
    let live = expire now store in
    let fresh : Entry = record { key = key; count = 1; reset_at = now + window } in
    elim (Option-cases (find_entry key live)) [
      | inl h ↦ (
        fresh,
        ground (
          arith,
          h,
          find_entry-append key live fresh h refl,
          find_entry-append key (drop 1 live) fresh (find_entry-drop_one key live h) refl,
        ),
        ground (arith, h),
        ground (arith, h),
      )
      | inr (e, h) ↦ (
        record e { count = e.count + 1 },
        ground (arith, h, find_entry-bump key live h),
        ground (arith, h),
        ground (arith, h),
      )
    ]

pub consume_fallback-alive :
    (window max_entries key now : ℕ) (store : List Entry) {e : Entry}
    → find_entry key store ≡ some e
    → now < e.reset_at
    → ((consume_fallback window max_entries key now store).0.requests ≡ e.count + 1)
      × ((consume_fallback window max_entries key now store).0.reset_at ≡ e.reset_at)
unfolding consume_fallback
consume_fallback-alive window max_entries key now store h l =
    let alive = find_entry-expire key now store h l in
    (ground (arith, alive), ground (arith, alive))

-- Where the request after one for a key is for the same key and comes before the reset that the first
-- was told, it counts one more and is told the same reset.
pub consume_fallback_counts :
    (window max_entries key now later : ℕ) (store : List Entry)
    → let (c, after) = consume_fallback window max_entries key now store in
      later < c.reset_at
      → ((consume_fallback window max_entries key later after).0.requests ≡ c.requests + 1)
        × ((consume_fallback window max_entries key later after).0.reset_at ≡ c.reset_at)
consume_fallback_counts window max_entries key now later store l =
    let (e, f, n, r) = find_entry-consume_fallback window max_entries key now store in
    let next =
      consume_fallback-alive window max_entries key later
        (consume_fallback window max_entries key now store).1 f (rw (r) l) in
    (next.0 ∙ ap (λ x. x + 1) n, next.1 ∙ r)
