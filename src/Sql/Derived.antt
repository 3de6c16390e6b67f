-- ===== src/Sql/Derived.antt =====
-- Operations that Prisma builds from the others.
use event_booking_system_mic.Common.{
  ℕ, ◌≡◌, Bool, true, false, Option, none, some, Option-cases, eq_refl, arith, is_some, inl, inr,
  refl,
}
use event_booking_system_mic.Sql.Defs.{Schema, Sql, is_taken, holds}

abbrev pub always : {R : Type 0} → R → Bool
always r = true

pub holds_found :
    {R : Type 0} (p : R → Bool) (o : Option R)
    → holds p o ≡ true
    → (r : R) × (o ≡ some r) × (p r ≡ true)
holds_found p none h = absurd (ground arith)
holds_found p (some r) h = (r, refl, h)

module _ (sql : Sql) {R : Type 0} (s : Schema R) where
  -- `upsert`: the row of that key is changed by `f`, and a missing one is created.
  unfoldable pub upsert : ℕ → (R → R) → R → sql.Rows R → Option (sql.Rows R)
  upsert k f r t = elim (sql.find s k t) [
    | none ↦ sql.create s r t
    | some _ ↦ some (sql.update s k always f t).0
  ]

  -- A row that breaks no constraint is inserted.
  pub create_fresh :
      (r : R) (t : sql.Rows R)
      → sql.find s (s.key r) t ≡ none
      → is_taken (λ a. sql.find_by s a t) (s.unique r) ≡ false
      → (t' : sql.Rows R) × (sql.create s r t ≡ some t')
  create_fresh r t h u = elim (Option-cases (sql.create s r t)) [
    | inl e ↦ absurd (ground (arith, sql.create-taken s r t))
    | inr found ↦ found
  ]

  -- A row whose key is there already is refused.
  pub create-taken_key :
      (r : R) (t : sql.Rows R) → is_some (sql.find s (s.key r) t) ≡ true → sql.create s r t ≡ none
  create-taken_key r t h = ground (arith, sql.create-taken s r t)

  -- A row that is inserted was not there, and is there.
  pub find-create_self :
      (r : R) (t : sql.Rows R) {t' : sql.Rows R}
      → sql.create s r t ≡ some t'
      → (sql.find s (s.key r) t ≡ none) × (sql.find s (s.key r) t' ≡ some r)
  find-create_self r t {t'} h =
      ground (
        arith,
        sql.create-taken s r t,
        sql.find-create s r t {t' = t'} (s.key r),
        eq_refl (s.key r),
      )
