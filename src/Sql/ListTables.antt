-- ===== src/Sql/ListTables.antt =====
-- Tables as lists of rows, newest first: a store that meets the laws of `Sql`.
use event_booking_system_mic.Common.{
  ℕ, zero, suc, ◌≡◌, refl, Bool, true, false, not, ◌||◌, ◌&&◌, Option, none, some, List, [], ◌∷◌,
  ◌==◌, is_some, option_eq, if◌then◌else◌, All, take, drop, length-take-le, ◌⊎◌, ==_iff, length,
  Option-cases, inl, inr, arith,
}
use event_booking_system_mic.Sql.Defs.{
  Schema, Sql, is_taken, holds, returned, updated, kept, mem, IsDistinct,
}

module _ {R : Type 0} (s : Schema R) where
  abbrev pub find : ℕ → List R → Option R
  find k [] = none
  find k (r ∷ t) = if k == s.key r then some r else find k t

  abbrev pub find_by : ℕ → List R → Option R
  find_by a [] = none
  find_by a (r ∷ t) = if option_eq (s.unique r) (some a) then some r else find_by a t

  abbrev pub create : R → List R → Option (List R)
  create r t =
      if is_some (find (s.key r) t) || is_taken (λ a. find_by a t) (s.unique r)
      then none
      else some (r ∷ t)

  abbrev pub change : ℕ → (R → Bool) → (R → R) → List R → List R
  change k p f [] = []
  change k p f (r ∷ t) = if k == s.key r then (if p r then f r else r) ∷ t else r ∷ change k p f t

  abbrev pub without : ℕ → List R → List R
  without k [] = []
  without k (r ∷ t) = if k == s.key r then without k t else r ∷ without k t

  abbrev pub delete_row : ℕ → (R → Bool) → List R → List R
  delete_row k p t = if holds p (find k t) then without k t else t

  -- the keys of the rows that pass, each once
  abbrev pub passing : (R → Bool) → List R → List R → List ℕ
  passing q all [] = []
  passing q all (r ∷ t) =
      if holds q (find (s.key r) all) && not (mem (s.key r) (passing q all t))
      then s.key r ∷ passing q all t
      else passing q all t

  abbrev pub rows_of : List R → List ℕ → List R
  rows_of t [] = []
  rows_of t (k ∷ ks) = elim (find k t) [ none ↦ rows_of t ks | some r ↦ r ∷ rows_of t ks ]

  pub find-key : (k : ℕ) (t : List R) {r : R} → find k t ≡ some r → s.key r ≡ k
  find-key k [] h = ground arith
  find-key k (x ∷ t) {r} h = ground (arith, find-key k t {r = r})

  pub find_by-unique : (a : ℕ) (t : List R) {r : R} → find_by a t ≡ some r → s.unique r ≡ some a
  find_by-unique a [] h = ground arith
  find_by-unique a (x ∷ t) {r} h = ground (arith, find_by-unique a t {r = r})

  pub create-taken :
      (r : R) (t : List R)
      → is_some (create r t)
        ≡ not (is_some (find (s.key r) t) || is_taken (λ a. find_by a t) (s.unique r))
  create-taken r t = ground arith

  pub find-create :
      (r : R) (t : List R) {t' : List R} (k : ℕ)
      → create r t ≡ some t'
      → find k t' ≡ (if k == s.key r then some r else find k t)
  find-create r t k h = ground arith

  pub find_by-create :
      (r : R) (t : List R) {t' : List R} (a : ℕ)
      → create r t ≡ some t'
      → find_by a t' ≡ (if option_eq (s.unique r) (some a) then some r else find_by a t)
  find_by-create r t a h = ground arith

  pub find-change :
      (k : ℕ) (p : R → Bool) (f : R → R) (t : List R) (j : ℕ)
      → ((r : R) → s.key (f r) ≡ s.key r)
      → find j (change k p f t) ≡ (if j == k then updated p f (find k t) else find j t)
  find-change k p f [] j h = ground arith
  find-change k p f (x ∷ t) j h = ground (arith, h x, find-change k p f t j h)

  find-without :
      (k : ℕ) (t : List R) (j : ℕ) → find j (without k t) ≡ (if j == k then none else find j t)
  find-without k [] j = ground arith
  find-without k (x ∷ t) j = ground (arith, find-without k t j)

  pub find-delete :
      (k : ℕ) (p : R → Bool) (t : List R) (j : ℕ)
      → find j (delete_row k p t) ≡ (if j == k then kept p (find k t) else find j t)
  find-delete k p t j = ground (arith, find-without k t j)

  pub passing-holds :
      (q : R → Bool) (all t : List R) → All (λ k. holds q (find k all) ≡ true) (passing q all t)
  passing-holds q all [] = tt
  passing-holds q all (r ∷ t) = ground (arith, passing-holds q all t)

  pub passing-IsDistinct : (q : R → Bool) (all t : List R) → IsDistinct (passing q all t)
  passing-IsDistinct q all [] = tt
  passing-IsDistinct q all (r ∷ t) = ground (arith, passing-IsDistinct q all t)

  pub passing-all :
      (q : R → Bool) (all t : List R) (k : ℕ)
      → is_some (find k t) ≡ true
      → holds q (find k all) ≡ true
      → mem k (passing q all t) ≡ true
  passing-all q all [] k f h = absurd (ground arith)
  passing-all q all (r ∷ t) k f h = ground (arith, passing-all q all t k, ==_iff k (s.key r), h, f)

  pub rows_of-found :
      (q : R → Bool) (t : List R) (ks : List ℕ)
      → All (λ k. holds q (find k t) ≡ true) ks
      → All (λ r. (find (s.key r) t ≡ some r) × (q r ≡ true)) (rows_of t ks)
  rows_of-found q t [] h = tt
  rows_of-found q t (k ∷ ks) h = elim (Option-cases (find k t)) [
    | inl e ↦ rw (e, rows_of, All) (rows_of-found q t ks h.1)
    | inr (r, e) ↦
        rw (e, rows_of, All)
          ((rw (find-key k t {r = r} e) e, ground (arith, h.0)), rows_of-found q t ks h.1)
  ]

pub All-take {ℓ κ} :
    {A : Type ℓ} (P : A → Type κ) (n : ℕ) (xs : List A) → All P xs → All P (take n xs)
All-take P zero xs h = tt
All-take P (suc n) [] h = tt
All-take P (suc n) (x ∷ xs) h = (h.0, All-take P n xs h.1)

pub All-drop {ℓ κ} :
    {A : Type ℓ} (P : A → Type κ) (n : ℕ) (xs : List A) → All P xs → All P (drop n xs)
All-drop P zero xs h = h
All-drop P (suc n) [] h = tt
All-drop P (suc n) (x ∷ xs) h = All-drop P n xs h.1

mem-take : (k n : ℕ) (xs : List ℕ) → mem k xs ≡ false → mem k (take n xs) ≡ false
mem-take k zero xs h = refl
mem-take k (suc n) [] h = refl
mem-take k (suc n) (x ∷ xs) h = ground (arith, mem-take k n xs)

pub IsDistinct-take : (n : ℕ) (xs : List ℕ) → IsDistinct xs → IsDistinct (take n xs)
IsDistinct-take zero xs h = tt
IsDistinct-take (suc n) [] h = tt
IsDistinct-take (suc n) (x ∷ xs) h = (mem-take x n xs h.0, IsDistinct-take n xs h.1)

pub mem-take_or_full :
    (k n : ℕ) (xs : List ℕ)
    → mem k xs ≡ true
    → (mem k (take n xs) ≡ true) ⊎ (length (take n xs) ≡ n)
mem-take_or_full k zero xs h = inr refl
mem-take_or_full k (suc n) [] h = absurd (ground arith)
mem-take_or_full k (suc n) (x ∷ xs) h = ground (arith, mem-take_or_full k n xs)

pub holds-is_some : {R : Type 0} (q : R → Bool) (o : Option R) → holds q o ≡ true → is_some o ≡ true
holds-is_some q none h = h
holds-is_some q (some r) h = refl

abbrev pub list_tables : Sql
list_tables = record {
  Rows = List;
  find = λ s k t. find s k t;
  find_by = λ s a t. find_by s a t;
  create = λ s r t. create s r t;
  update = λ s k p f t. (change s k p f t, returned p f (find s k t));
  delete = λ s k p t. (delete_row s k p t, returned p (λ r. r) (find s k t));
  select = λ s q c n t. take n (passing s q t t);
  find_many = λ s q c skip n t. take n (drop skip (rows_of s t (passing s q t t)));
  find-key = λ s k t h. find-key s k t h;
  find_by-unique = λ s a t h. find_by-unique s a t h;
  create-taken = λ s r t. create-taken s r t;
  find-create = λ s r t k h. find-create s r t k h;
  find_by-create = λ s r t a h. find_by-create s r t a h;
  find-update = λ s k p f t j h. find-change s k p f t j h;
  update-returned = λ s k p f t. refl;
  find-delete = λ s k p t j. find-delete s k p t j;
  delete-returned = λ s k p t. refl;
  select-holds = λ s q c n t. All-take _ n (passing s q t t) (passing-holds s q t t);
  select-distinct = λ s q c n t. IsDistinct-take n (passing s q t t) (passing-IsDistinct s q t t);
  select-all = λ s q c n t k h.
      mem-take_or_full k n (passing s q t t)
        (passing-all s q t t k (holds-is_some q (find s k t) h) h);
  length-select = λ s q c n t. length-take-le n (passing s q t t);
  find_many-found = λ s q c skip n t. All-take _ n (drop skip (rows_of s t (passing s q t t))) (
      All-drop _ skip (rows_of s t (passing s q t t))
        (rows_of-found s q t (passing s q t t) (passing-holds s q t t)));
  length-find_many = λ s q c skip n t. length-take-le n (drop skip (rows_of s t (passing s q t t)));
}
