-- ===== src/Facts/Rows.antt =====
-- Reading a row after an update of a table.
use klams.Common.{
  ℕ, ◌≡◌, refl, ap, ◌∙◌, sym, inl, inr, Bool, true, false, Option, none, some, List, [], ◌∷◌,
  if◌then◌else◌, ◌==◌, ==_iff, any, Bool-cases, ok, err,
}
use klams.Facts.Write.{outcome_dissented, outcome_persisted}
use klams.Facts.{Written, StoreError, after, FactRow, Db, find_by, update_where, fact_is, find_fact}

-- What an update does to one row.
abbrev pub changed : {A : Type 0} → (A → Bool) → (A → A) → A → A
changed q g x = if q x then g x else x

abbrev pub mapped : {A : Type 0} → (A → A) → Option A → Option A
mapped g none = none
mapped g (some x) = some (g x)

module _ {A : Type 0} (p : A → Bool) where
  pub find_by-update_where :
      (q : A → Bool) (g : A → A) (xs : List A)
      → ((x : A) → p (g x) ≡ p x)
      → find_by p (update_where q g xs) ≡ mapped (changed q g) (find_by p xs)
  unfolding find_by update_where
  find_by-update_where q g [] k = refl
  find_by-update_where q g (x ∷ xs) k = elim (Bool-cases (q x)) [
    | inl e ↦ elim (Bool-cases (p x)) [
      | inl h ↦ rw (e, k x, h, e)
      | inr h ↦ rw (e, k x, h) (find_by-update_where q g xs k)
    ]
    | inr e ↦ elim (Bool-cases (p x)) [
      | inl h ↦ rw (e, h, e)
      | inr h ↦ rw (e, h) (find_by-update_where q g xs k)
    ]
  ]

  pub find_by-holds : (xs : List A) (x : A) → find_by p xs ≡ some x → p x ≡ true
  unfolding find_by
  find_by-holds [] x h = cc
  find_by-holds (y ∷ ys) x h = elim (Bool-cases (p y)) [
    | inl e ↦ let s : some y ≡ some x = rw e at h in let q : y ≡ x = cc in ap p (sym q) ∙ e
    | inr e ↦ find_by-holds ys x (rw e at h)
  ]

  -- A row that is found stands in the table.
  pub find_by-any : (xs : List A) (x : A) → find_by p xs ≡ some x → any p xs ≡ true
  unfolding find_by
  find_by-any [] x h = cc
  find_by-any (y ∷ ys) x h = elim (Bool-cases (p y)) [
    | inl e ↦ rw e
    | inr e ↦ rw e (find_by-any ys x (rw e at h))
  ]

  pub find_by-none : (xs : List A) → find_by p xs ≡ none → any p xs ≡ false
  unfolding find_by
  find_by-none [] h = refl
  find_by-none (y ∷ ys) h = elim (Bool-cases (p y)) [
    | inl e ↦ let s : ◌≡◌ {A = Option A} (some y) none = rw e at h in cc
    | inr e ↦ rw e (find_by-none ys (rw e at h))
  ]

-- What holds before and after a transaction holds whether it commits or not.
pub after-if :
    {P A : Type 0} (R : Db P → Type 0) (db db' : Db P) (e : StoreError) (a : A) (b : Bool)
    → R db
    → R db'
    → R (after db (if b then err e else ok (a, db')))
after-if R db db' e a true h k = h
after-if R db db' e a false h k = k

-- The tables do not depend on how the outcome is told.
pub after-dissented :
    {P : Type 0} (db : Db P) (i : ℕ) (w : Written P (ℕ × ℕ))
    → after db (outcome_dissented i w) ≡ after db w
after-dissented db i (ok (d, db')) = refl
after-dissented db i (err e) = refl

pub after-persisted :
    {P : Type 0} (db : Db P) (w : Written P (FactRow P))
    → after db (outcome_persisted w) ≡ after db w
after-persisted db (ok (f, db')) = refl
after-persisted db (err e) = refl

module _ {P : Type 0} (i : ℕ) where
  pub find_fact-update :
      (q : FactRow P → Bool) (g : FactRow P → FactRow P) (facts : List (FactRow P))
      → ((x : FactRow P) → (g x).id ≡ x.id)
      → find_by (fact_is i) (update_where q g facts)
        ≡ mapped (changed q g) (find_by (fact_is i) facts)
  find_fact-update q g facts k =
      find_by-update_where (fact_is i) q g facts (λ x. ap (λ n. n == i) (k x))

  pub find_fact-id : (db : Db P) (f : FactRow P) → find_fact i db ≡ some f → f.id ≡ i
  unfolding find_fact
  find_fact-id db f h = (==_iff f.id i).0 (find_by-holds (fact_is i) db.facts f h)
