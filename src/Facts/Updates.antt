-- ===== src/Facts/Updates.antt =====
-- What an update of a table does to sums and tests over it.
use klams.Common.{
  ℕ, ◌≤◌, ◌≡◌, refl, inl, inr, Bool, true, false, List, [], ◌∷◌, arith, if◌then◌else◌, any, All,
  sum_by, Bool-cases,
}
use klams.Facts.{update_where}

abbrev pub one : Bool → ℕ
one b = if b then 1 else 0

module _ {A : Type 0} where
  pub All-update :
      (Q : A → Type 0) (q : A → Bool) (g : A → A) (xs : List A)
      → ((x : A) → Q x → Q (g x))
      → All Q xs
      → All Q (update_where q g xs)
  unfolding update_where
  All-update Q q g [] k h = tt
  All-update Q q g (x ∷ xs) k h = (step (q x), All-update Q q g xs k h.1)
    where
      step : (b : Bool) → Q (if b then g x else x)
      step true = k x h.0
      step false = h.0

  pub sum-update :
      (m : A → ℕ) (q : A → Bool) (g : A → A) (xs : List A)
      → ((x : A) → m (g x) ≡ m x)
      → sum_by m (update_where q g xs) ≡ sum_by m xs
  unfolding update_where
  sum-update m q g [] k = refl
  sum-update m q g (x ∷ xs) k = elim (Bool-cases (q x)) [
    | inl e ↦ rw e (omega (arith, k x, sum-update m q g xs k))
    | inr e ↦ rw e (omega (arith, sum-update m q g xs k))
  ]

  pub sum-update_le :
      (m : A → ℕ) (q : A → Bool) (g : A → A) (xs : List A)
      → ((x : A) → m (g x) ≤ m x)
      → sum_by m (update_where q g xs) ≤ sum_by m xs
  unfolding update_where
  sum-update_le m q g [] k = omega arith
  sum-update_le m q g (x ∷ xs) k = elim (Bool-cases (q x)) [
    | inl e ↦ rw e (omega (arith, k x, sum-update_le m q g xs k))
    | inr e ↦ rw e (omega (arith, sum-update_le m q g xs k))
  ]

  pub any-update :
      (p q : A → Bool) (g : A → A) (xs : List A)
      → ((x : A) → p (g x) ≡ p x)
      → any p (update_where q g xs) ≡ any p xs
  unfolding update_where
  any-update p q g [] k = refl
  any-update p q g (x ∷ xs) k = elim (Bool-cases (q x)) [
    | inl e ↦ rw (e, k x, any-update p q g xs k)
    | inr e ↦ rw (e, any-update p q g xs k)
  ]

  pub sum-none : (p : A → Bool) (xs : List A) → any p xs ≡ false → sum_by (λ x. one (p x)) xs ≡ 0
  sum-none p [] h = refl
  sum-none p (x ∷ xs) h = elim (Bool-cases (p x)) [
    | inl e ↦ let w : true ≡ false = rw e at h in cc
    | inr e ↦ let rest = sum-none p xs (rw e at h) in rw e (omega (arith, rest))
  ]
