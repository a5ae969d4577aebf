-- ===== src/Rerank/Filter.antt =====
-- A list split by a test.
use klams.Common.{
  ℕ, ◌+◌, Bool, true, false, not, List, [], ◌∷◌, ◌++◌, sum_by, All, filter_by, ◌≡◌, refl, sym, ap,
  Bool-cases, inl, inr, arith,
}

module _ {A : Type 0} (p : A → Bool) where
  pub filter_by-append :
      (xs ys : List A) → filter_by p (xs ++ ys) ≡ filter_by p xs ++ filter_by p ys
  filter_by-append [] ys = refl
  filter_by-append (x ∷ xs) ys = elim (Bool-cases (p x)) [
    | inl e ↦ rw (e, filter_by-append xs ys) refl
    | inr e ↦ rw (e, filter_by-append xs ys) refl
  ]

  pub filter_by_all : (xs : List A) → All (λ x. p x ≡ true) xs → filter_by p xs ≡ xs
  filter_by_all [] h = refl
  filter_by_all (x ∷ xs) h = rw (h.0, filter_by_all xs h.1) refl

  pub filter_by_none :
      (xs : List A) → All (λ x. p x ≡ false) xs → ◌≡◌ {A = List A} (filter_by p xs) []
  filter_by_none [] h = refl
  filter_by_none (x ∷ xs) h = rw (h.0, filter_by_none xs h.1) refl

  pub filter_by-All : (xs : List A) → All (λ x. p x ≡ true) (filter_by p xs)
  filter_by-All [] = tt
  filter_by-All (x ∷ xs) = elim (Bool-cases (p x)) [
    | inl e ↦ rw e (e, filter_by-All xs)
    | inr e ↦ rw e (filter_by-All xs)
  ]

  pub sum_by-filter_by :
      (f : A → ℕ) (xs : List A)
      → sum_by f (filter_by p xs) + sum_by f (filter_by (λ x. not (p x)) xs) ≡ sum_by f xs
  sum_by-filter_by f [] = refl
  sum_by-filter_by f (x ∷ xs) =
      let i = sum_by-filter_by f xs in
      elim (Bool-cases (p x)) [
        | inl e ↦ rw (e) (omega (arith, i))
        | inr e ↦ rw (e) (omega (arith, i))
      ]

false_of_not : (b : Bool) → not b ≡ true → b ≡ false
false_of_not true h = sym h
false_of_not false h = refl

pub All-not :
    {A : Type 0} (p : A → Bool) (xs : List A)
    → All (λ x. not (p x) ≡ true) xs
    → All (λ x. p x ≡ false) xs
All-not p [] h = tt
All-not p (x ∷ xs) h = (false_of_not (p x) h.0, All-not p xs h.1)

pub All-true :
    {A : Type 0} (p : A → Bool) (xs : List A)
    → All (λ x. p x ≡ true) xs
    → All (λ x. not (p x) ≡ false) xs
All-true p [] h = tt
All-true p (x ∷ xs) h = (ap not h.0, All-true p xs h.1)

pub append_nil : {A : Type 0} (xs : List A) → xs ++ [] ≡ xs
append_nil [] = refl
append_nil (x ∷ xs) = rw (append_nil xs) refl
