-- ===== src/Timeline/Merge.antt =====
-- The first items of a sorted whole are among the first items of its sorted parts.
use klams.Common.{
  ℕ, zero, suc, ◌≡◌, refl, ap, sym, subst, ◌∙◌, inl, inr, Bool, true, false, List, [], ◌∷◌, ◌++◌,
  take, All, Bool-cases, All-append, All-append_left, All-append_right,
}
use klams.Common.Sort.{insert, sort_by, IsSorted, sort_by-IsSorted}
use klams.Common.Rearrange.{
  Rearranged, same, under, exchange, twice, Each, Each-Rearranged, Untied, Untied-sym,
  sort_by-Rearranged,
}
use mathlib.Core.List.{append-nil}

module _ {A : Type 0} where
  pub All-take : (P : A → Type 0) (n : ℕ) (xs : List A) → All P xs → All P (take n xs)
  All-take P zero xs h = tt
  All-take P (suc n) [] h = tt
  All-take P (suc n) (x ∷ xs) h = (h.0, All-take P n xs h.1)

  -- Fewer items of the first part, and all of the second.
  pub Each-take :
      (R : A → A → Type 0) (n : ℕ) (xs ys : List A) → Each R (xs ++ ys) → Each R (take n xs ++ ys)
  Each-take R zero xs ys h = rest xs h
    where
      rest : (xs : List A) → Each R (xs ++ ys) → Each R ys
      rest [] k = k
      rest (x ∷ xs) k = rest xs k.1
  Each-take R (suc n) [] ys h = h
  Each-take R (suc n) (x ∷ xs) ys h = (
    All-append (R x) (take n xs) ys (All-take (R x) n xs (All-append_left (R x) xs ys h.0))
        (All-append_right (R x) xs ys h.0),
    Each-take R n xs ys h.1,
  )

  pub Rearranged-swap : (xs ys : List A) → Rearranged (xs ++ ys) (ys ++ xs)
  Rearranged-swap [] ys = subst (Rearranged ys) (sym (append-nil ys)) (same ys)
  Rearranged-swap (x ∷ xs) ys =
      twice (x ∷ xs ++ ys) (x ∷ ys ++ xs) (ys ++ x ∷ xs)
        (under x (xs ++ ys) (ys ++ xs) (Rearranged-swap xs ys)) (into ys)
    where
      into : (ys : List A) → Rearranged (x ∷ ys ++ xs) (ys ++ x ∷ xs)
      into [] = same (x ∷ xs)
      into (y ∷ ys) =
          twice (x ∷ y ∷ ys ++ xs) (y ∷ x ∷ ys ++ xs) (y ∷ ys ++ x ∷ xs) (exchange x y (ys ++ xs))
            (under y (x ∷ ys ++ xs) (ys ++ x ∷ xs) (into ys))

  Rearranged-append : (xs xs' ys : List A) → Rearranged xs xs' → Rearranged (xs ++ ys) (xs' ++ ys)
  Rearranged-append _ _ ys (same xs) = same (xs ++ ys)
  Rearranged-append _ _ ys (under x xs xs' p) =
      under x (xs ++ ys) (xs' ++ ys) (Rearranged-append xs xs' ys p)
  Rearranged-append _ _ ys (exchange x y xs) = exchange x y (xs ++ ys)
  Rearranged-append _ _ ys (twice xs zs xs' p q) =
      twice (xs ++ ys) (zs ++ ys) (xs' ++ ys) (Rearranged-append xs zs ys p)
        (Rearranged-append zs xs' ys q)

module _ {A : Type 0} (le : A → A → Bool) where
  insert-Rearranged : (x : A) (xs : List A) → Rearranged (x ∷ xs) (insert le x xs)
  unfolding insert
  insert-Rearranged x [] = same (x ∷ [])
  insert-Rearranged x (y ∷ ys) = elim (Bool-cases (le x y)) [
    | inl h ↦ rw h (same (x ∷ y ∷ ys))
    | inr h ↦ rw h (
        twice (x ∷ y ∷ ys) (y ∷ x ∷ ys) (y ∷ insert le x ys) (exchange x y ys)
          (under y (x ∷ ys) (insert le x ys) (insert-Rearranged x ys)))
  ]

  pub Rearranged-sort_by : (xs : List A) → Rearranged xs (sort_by le xs)
  unfolding sort_by
  Rearranged-sort_by [] = same []
  Rearranged-sort_by (x ∷ xs) =
      twice (x ∷ xs) (x ∷ sort_by le xs) (insert le x (sort_by le xs))
        (under x xs (sort_by le xs) (Rearranged-sort_by xs)) (insert-Rearranged x (sort_by le xs))

  insert_all : List A → List A → List A
  insert_all [] l = l
  insert_all (x ∷ xs) l = insert le x (insert_all xs l)

  sort_by-append : (xs ys : List A) → sort_by le (xs ++ ys) ≡ insert_all xs (sort_by le ys)
  unfolding sort_by insert_all
  sort_by-append [] ys = refl
  sort_by-append (x ∷ xs) ys = ap (insert le x) (sort_by-append xs ys)

  take-take : (m : ℕ) (y : A) (ys : List A) → take m (y ∷ take m ys) ≡ take m (y ∷ ys)
  take-take zero y ys = refl
  take-take (suc zero) y ys = refl
  take-take (suc (suc m)) y [] = refl
  take-take (suc (suc m)) y (z ∷ ys) = ap (◌∷◌ y) (take-take (suc m) z ys)

  take-insert :
      (n : ℕ) (x : A) (l : List A) → take n (insert le x (take n l)) ≡ take n (insert le x l)
  unfolding insert
  take-insert zero x l = refl
  take-insert (suc n) x [] = refl
  take-insert (suc n) x (y ∷ ys) = elim (Bool-cases (le x y)) [
    | inl h ↦ rw h (ap (◌∷◌ x) (take-take n y ys))
    | inr h ↦ rw h (ap (◌∷◌ y) (take-insert n x ys))
  ]

  -- Of the list that items are put into, the first n matter for the first n.
  take-insert_all :
      (n : ℕ) (xs l : List A) → take n (insert_all xs (take n l)) ≡ take n (insert_all xs l)
  unfolding insert_all
  take-insert_all n [] l = take_twice n l
    where
      take_twice : (n : ℕ) (l : List A) → take n (take n l) ≡ take n l
      take_twice zero l = refl
      take_twice (suc n) [] = refl
      take_twice (suc n) (y ∷ l) = ap (◌∷◌ y) (take_twice n l)
  take-insert_all n (x ∷ xs) l =
      sym (take-insert n x (insert_all xs (take n l)))
      ∙ ap (λ k. take n (insert le x k)) (take-insert_all n xs l)
      ∙ take-insert n x (insert_all xs l)

  pub sorted_lem : (xs : List A) → IsSorted le xs → sort_by le xs ≡ xs
  unfolding sort_by insert
  sorted_lem [] s = refl
  sorted_lem (x ∷ xs) s = ap (insert le x) (sorted_lem xs s.1) ∙ first xs s.0
    where
      first : (xs : List A) → All (λ y. le x y ≡ true) xs → insert le x xs ≡ x ∷ xs
      first [] h = refl
      first (y ∷ ys) h = rw h.0

  pub take-IsSorted : (n : ℕ) (xs : List A) → IsSorted le xs → IsSorted le (take n xs)
  take-IsSorted zero xs s = tt
  take-IsSorted (suc n) [] s = tt
  take-IsSorted (suc n) (x ∷ xs) s =
      (All-take (λ y. le x y ≡ true) n xs s.0, take-IsSorted n xs s.1)

module _ {A : Type 0} (le : A → A → Bool) (total : (a b : A) → le a b ≡ false → le b a ≡ true)
    (trans : (a b c : A) → le a b ≡ true → le b c ≡ true → le a c ≡ true) (n : ℕ) where
  -- The second part may be cut to its first n items.
  take-sort_right :
      (xs ys : List A)
      → take n (sort_by le (xs ++ take n (sort_by le ys))) ≡ take n (sort_by le (xs ++ ys))
  take-sort_right xs ys =
      let s = take-IsSorted le n (sort_by le ys) (sort_by-IsSorted le total trans ys) in
      ap (take n) (sort_by-append le xs (take n (sort_by le ys)))
      ∙ ap (λ l. take n (insert_all le xs l)) (sorted_lem le (take n (sort_by le ys)) s)
      ∙ take-insert_all le n xs (sort_by le ys)
      ∙ ap (take n) (sym (sort_by-append le xs ys))

  -- So may both, where no two items are tied.
  pub take-sort_by :
      (xs ys : List A)
      → Each (Untied le trans) (xs ++ ys)
      → take n (sort_by le (take n (sort_by le xs) ++ take n (sort_by le ys)))
        ≡ take n (sort_by le (xs ++ ys))
  take-sort_by xs ys u =
      let cut = take n (sort_by le xs) in
      let U = Untied le trans in
      let u_cut : Each U (cut ++ ys) = Each-take U n (sort_by le xs) ys (
        Each-Rearranged U (Untied-sym le trans) (xs ++ ys) (sort_by le xs ++ ys)
          (Rearranged-append xs (sort_by le xs) ys (Rearranged-sort_by le xs)) u) in
      take-sort_right cut ys
      ∙ ap (take n)
          (sort_by-Rearranged le trans (cut ++ ys) (ys ++ cut) (Rearranged-swap cut ys) u_cut)
      ∙ take-sort_right ys xs
      ∙ ap (take n)
          (sym (sort_by-Rearranged le trans (xs ++ ys) (ys ++ xs) (Rearranged-swap xs ys) u))
