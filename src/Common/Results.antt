-- ===== src/Common/Results.antt =====
-- How an asynchronous call ends: with a value, or with what it throws.
use mathlib.Core.Bool.{Bool, true, false}
use mathlib.Core.Path.{◌≡◌, refl}
use mathlib.Core.Logic.{◌⊎◌, inl, inr}

pub data Outcome {ℓ κ} (E : Type ℓ) (A : Type κ) : Type (ℓ ⊔ κ) where
  ok : A → Outcome E A
  throws : E → Outcome E A

-- `db.$transaction(body)`: what the body throws undoes all that it wrote.
abbrev pub transaction : {E S A : Type 0} → (S → Outcome E (A × S)) → S → Outcome E A × S
transaction body s = elim (body s) [ ok (a, s') ↦ (ok a, s') | throws e ↦ (throws e, s) ]

abbrev pub is_ok {ℓ κ} : {E : Type ℓ} {A : Type κ} → Outcome E A → Bool
is_ok (ok _) = true
is_ok (throws _) = false

pub Outcome-cases {ℓ κ} :
    {E : Type ℓ} {A : Type κ} (o : Outcome E A)
    → ((a : A) × (o ≡ ok a)) ⊎ ((e : E) × (o ≡ throws e))
Outcome-cases (ok a) = inl (a, refl)
Outcome-cases (throws e) = inr (e, refl)
