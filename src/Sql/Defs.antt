-- ===== src/Sql/Defs.antt =====
-- The interface of a transactional table store.
use event_booking_system_mic.Common.{
  ℕ, ◌≤◌, ◌≡◌, Bool, true, false, not, ◌||◌, Option, none, some, List, [], ◌∷◌, ◌==◌, is_some,
  option_eq, if◌then◌else◌, length, All, ◌⊎◌,
}

-- The constraints that a table declares.
pub record Schema (R : Type 0) : Type 0 where
  pub key : R → ℕ  -- `@id`
  pub unique : R → Option ℕ  -- a column that is `@unique`; a null breaks no constraint

-- Whether a nullable value is held by a row already.
abbrev pub is_taken : {R : Type 0} → (ℕ → Option R) → Option ℕ → Bool
is_taken f none = false
is_taken f (some a) = is_some (f a)

-- Whether the row that is there, if any, passes a WHERE clause.
abbrev pub holds : {R : Type 0} → (R → Bool) → Option R → Bool
holds p none = false
holds p (some r) = p r

-- The rows that an UPDATE of at most one row returns.
abbrev pub returned : {R : Type 0} → (R → Bool) → (R → R) → Option R → List R
returned p f none = []
returned p f (some r) = if p r then f r ∷ [] else []

-- The row after an UPDATE.
abbrev pub updated : {R : Type 0} → (R → Bool) → (R → R) → Option R → Option R
updated p f none = none
updated p f (some r) = some (if p r then f r else r)

-- The row after a DELETE.
abbrev pub kept : {R : Type 0} → (R → Bool) → Option R → Option R
kept p none = none
kept p (some r) = if p r then none else some r

abbrev pub mem : ℕ → List ℕ → Bool
mem k [] = false
mem k (j ∷ js) = k == j || mem k js

abbrev pub IsDistinct : List ℕ → Type 0
IsDistinct [] = Unit
IsDistinct (k ∷ ks) = (mem k ks ≡ false) × IsDistinct ks

pub record Sql : Type 1 where
  pub Rows : Type 0 → Type 0
  -- `findUnique` by the primary key, and by the other unique column
  pub find : {R : Type 0} → Schema R → ℕ → Rows R → Option R
  pub find_by : {R : Type 0} → Schema R → ℕ → Rows R → Option R
  -- `create`: `none` is the error P2002, a unique constraint that the row would break
  pub create : {R : Type 0} → Schema R → R → Rows R → Option (Rows R)
  -- `UPDATE … SET f WHERE pk = k AND p RETURNING *`, also Prisma's `updateMany`
  pub update : {R : Type 0} → Schema R → ℕ → (R → Bool) → (R → R) → Rows R → Rows R × List R
  -- `DELETE … WHERE pk = k AND p RETURNING *`
  pub delete : {R : Type 0} → Schema R → ℕ → (R → Bool) → Rows R → Rows R × List R
  -- `SELECT pk … WHERE q ORDER BY column LIMIT n FOR UPDATE SKIP LOCKED`
  pub select : {R : Type 0} → Schema R → (R → Bool) → (R → ℕ) → ℕ → Rows R → List ℕ
  -- `findMany` with `where`, `orderBy: [column, pk]`, `skip` and `take`
  pub find_many : {R : Type 0} → Schema R → (R → Bool) → (R → ℕ) → ℕ → ℕ → Rows R → List R
  pub find-key :
      {R : Type 0} (s : Schema R) (k : ℕ) (t : Rows R) {r : R} → find s k t ≡ some r → s.key r ≡ k
  pub find_by-unique :
      {R : Type 0} (s : Schema R) (a : ℕ) (t : Rows R) {r : R}
      → find_by s a t ≡ some r
      → s.unique r ≡ some a
  pub create-taken :
      {R : Type 0} (s : Schema R) (r : R) (t : Rows R)
      → is_some (create s r t)
        ≡ not (is_some (find s (s.key r) t) || is_taken (λ a. find_by s a t) (s.unique r))
  pub find-create :
      {R : Type 0} (s : Schema R) (r : R) (t : Rows R) {t' : Rows R} (k : ℕ)
      → create s r t ≡ some t'
      → find s k t' ≡ (if k == s.key r then some r else find s k t)
  pub find_by-create :
      {R : Type 0} (s : Schema R) (r : R) (t : Rows R) {t' : Rows R} (a : ℕ)
      → create s r t ≡ some t'
      → find_by s a t' ≡ (if option_eq (s.unique r) (some a) then some r else find_by s a t)
  pub find-update :
      {R : Type 0} (s : Schema R) (k : ℕ) (p : R → Bool) (f : R → R) (t : Rows R) (j : ℕ)
      → ((r : R) → s.key (f r) ≡ s.key r)
      → find s j (update s k p f t).0 ≡ (if j == k then updated p f (find s k t) else find s j t)
  pub update-returned :
      {R : Type 0} (s : Schema R) (k : ℕ) (p : R → Bool) (f : R → R) (t : Rows R)
      → (update s k p f t).1 ≡ returned p f (find s k t)
  pub find-delete :
      {R : Type 0} (s : Schema R) (k : ℕ) (p : R → Bool) (t : Rows R) (j : ℕ)
      → find s j (delete s k p t).0 ≡ (if j == k then kept p (find s k t) else find s j t)
  pub delete-returned :
      {R : Type 0} (s : Schema R) (k : ℕ) (p : R → Bool) (t : Rows R)
      → (delete s k p t).1 ≡ returned p (λ r. r) (find s k t)
  pub select-holds :
      {R : Type 0} (s : Schema R) (q : R → Bool) (c : R → ℕ) (n : ℕ) (t : Rows R)
      → All (λ k. holds q (find s k t) ≡ true) (select s q c n t)
  pub select-distinct :
      {R : Type 0} (s : Schema R) (q : R → Bool) (c : R → ℕ) (n : ℕ) (t : Rows R)
      → IsDistinct (select s q c n t)
  -- Where fewer keys than the limit are selected, they are all that pass; no transaction holds a lock
  -- between two statements.
  pub select-all :
      {R : Type 0} (s : Schema R) (q : R → Bool) (c : R → ℕ) (n : ℕ) (t : Rows R) (k : ℕ)
      → holds q (find s k t) ≡ true
      → (mem k (select s q c n t) ≡ true) ⊎ (length (select s q c n t) ≡ n)
  pub length-select :
      {R : Type 0} (s : Schema R) (q : R → Bool) (c : R → ℕ) (n : ℕ) (t : Rows R)
      → length (select s q c n t) ≤ n
  pub find_many-found :
      {R : Type 0} (s : Schema R) (q : R → Bool) (c : R → ℕ) (skip n : ℕ) (t : Rows R)
      → All (λ r. (find s (s.key r) t ≡ some r) × (q r ≡ true)) (find_many s q c skip n t)
  pub length-find_many :
      {R : Type 0} (s : Schema R) (q : R → Bool) (c : R → ℕ) (skip n : ℕ) (t : Rows R)
      → length (find_many s q c skip n t) ≤ n
