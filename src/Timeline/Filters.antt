-- ===== src/Timeline/Filters.antt =====
-- Filters of rows, and the rows that come before the key of the last row of a page.
use klams.Common.{
  ℕ, zero, suc, ◌≡◌, refl, ap, sym, ◌∙◌, inl, inr, Bool, true, false, not, ◌&&◌, some, List, [],
  ◌∷◌, ◌++◌, arith, take, drop, filter_by, All, All-append, All-append_left, All-append_right,
  Bool-cases, In, here, there, All-In,
}
use klams.Common.Sort.{IsSorted, sort_by-IsSorted}
use klams.Common.Rearrange.{
  Rearranged, same, under, exchange, twice, Each, Untied, sort_by-Rearranged,
}
use klams.Timeline.{Row, Key, key_of, not_older, before, last_key}
use klams.Timeline.Merge.{All-take, Rearranged-sort_by, sorted_lem}
use klams.Timeline.Pages.{not_older-total, not_older-trans, before-key, IsUntied, sorted}

module _ {A : Type 0} (p : A → Bool) where
  pub filter_by-append :
      (xs ys : List A) → filter_by p (xs ++ ys) ≡ filter_by p xs ++ filter_by p ys
  filter_by-append [] ys = refl
  filter_by-append (x ∷ xs) ys = elim (Bool-cases (p x)) [
    | inl e ↦ rw (e, filter_by-append xs ys)
    | inr e ↦ rw (e, filter_by-append xs ys)
  ]

  pub filter_by-within :
      (q : A → Bool) (xs : List A)
      → ((x : A) → p x ≡ true → q x ≡ true)
      → filter_by p (filter_by q xs) ≡ filter_by p xs
  filter_by-within q [] k = refl
  filter_by-within q (x ∷ xs) k = elim (Bool-cases (p x)) [
    | inl e ↦ rw (e, k x e) (rw e (ap (◌∷◌ x) (filter_by-within q xs k)))
    | inr e ↦ elim (Bool-cases (q x)) [
      | inl f ↦ rw (e, f) (rw e (filter_by-within q xs k))
      | inr f ↦ rw (e, f) (filter_by-within q xs k)
    ]
  ]

  pub filter_by-and :
      (q r : A → Bool) (xs : List A)
      → ((x : A) → r x ≡ (q x && p x))
      → filter_by r xs ≡ filter_by p (filter_by q xs)
  filter_by-and q r [] k = refl
  filter_by-and q r (x ∷ xs) k = elim (Bool-cases (q x)) [
    | inl f ↦ elim (Bool-cases (p x)) [
      | inl e ↦ rw (k x, f, e) (ap (◌∷◌ x) (filter_by-and q r xs k))
      | inr e ↦ rw (k x, f, e) (filter_by-and q r xs k)
    ]
    | inr f ↦ rw (k x, f) (filter_by-and q r xs k)
  ]

  pub filter_by-all : (xs : List A) → All (λ x. p x ≡ true) xs → filter_by p xs ≡ xs
  filter_by-all [] h = refl
  filter_by-all (x ∷ xs) h = rw (h.0, filter_by-all xs h.1)

  All-filter_by : (P : A → Type 0) (xs : List A) → All P xs → All P (filter_by p xs)
  All-filter_by P [] h = tt
  All-filter_by P (x ∷ xs) h = elim (Bool-cases (p x)) [
    | inl e ↦ rw e (h.0, All-filter_by P xs h.1)
    | inr e ↦ rw e (All-filter_by P xs h.1)
  ]

  pub Each-filter_left :
      (R : A → A → Type 0) (xs ys : List A) → Each R (xs ++ ys) → Each R (filter_by p xs ++ ys)
  Each-filter_left R [] ys h = h
  Each-filter_left R (x ∷ xs) ys h = elim (Bool-cases (p x)) [
    | inl e ↦ rw e (
      All-append (R x) (filter_by p xs) ys
          (All-filter_by (R x) xs (All-append_left (R x) xs ys h.0))
          (All-append_right (R x) xs ys h.0),
      Each-filter_left R xs ys h.1,
    )
    | inr e ↦ rw e (Each-filter_left R xs ys h.1)
  ]

  pub Each-filter_right :
      (R : A → A → Type 0) (xs ys : List A) → Each R (xs ++ ys) → Each R (xs ++ filter_by p ys)
  Each-filter_right R [] ys h = only ys h
    where
      only : (ys : List A) → Each R ys → Each R (filter_by p ys)
      only [] k = tt
      only (y ∷ ys) k = elim (Bool-cases (p y)) [
        | inl e ↦ rw e (All-filter_by (R y) ys k.0, only ys k.1)
        | inr e ↦ rw e (only ys k.1)
      ]
  Each-filter_right R (x ∷ xs) ys h = (
    All-append (R x) xs (filter_by p ys) (All-append_left (R x) xs ys h.0)
        (All-filter_by (R x) ys (All-append_right (R x) xs ys h.0)),
    Each-filter_right R xs ys h.1,
  )

  Rearranged-filter_by :
      (xs ys : List A) → Rearranged xs ys → Rearranged (filter_by p xs) (filter_by p ys)
  Rearranged-filter_by _ _ (same xs) = same (filter_by p xs)
  Rearranged-filter_by _ _ (under x xs ys r) = elim (Bool-cases (p x)) [
    | inl e ↦ rw e (under x (filter_by p xs) (filter_by p ys) (Rearranged-filter_by xs ys r))
    | inr e ↦ rw e (Rearranged-filter_by xs ys r)
  ]
  Rearranged-filter_by _ _ (exchange x y xs) = elim (Bool-cases (p x)) [
    | inl e ↦ elim (Bool-cases (p y)) [
      | inl f ↦ rw (e, f) (exchange x y (filter_by p xs))
      | inr f ↦ rw (e, f) (same (x ∷ filter_by p xs))
    ]
    | inr e ↦ elim (Bool-cases (p y)) [
      | inl f ↦ rw (e, f) (same (y ∷ filter_by p xs))
      | inr f ↦ rw (e, f) (same (filter_by p xs))
    ]
  ]
  Rearranged-filter_by _ _ (twice xs ys zs r s) =
      twice (filter_by p xs) (filter_by p ys) (filter_by p zs) (Rearranged-filter_by xs ys r)
        (Rearranged-filter_by ys zs s)

  IsSorted-filter_by :
      (le : A → A → Bool) (xs : List A) → IsSorted le xs → IsSorted le (filter_by p xs)
  IsSorted-filter_by le [] s = tt
  IsSorted-filter_by le (x ∷ xs) s = elim (Bool-cases (p x)) [
    | inl e ↦ rw e (All-filter_by (λ y. le x y ≡ true) xs s.0, IsSorted-filter_by le xs s.1)
    | inr e ↦ rw e (IsSorted-filter_by le xs s.1)
  ]

pub sorted-filter_by :
    (p : Row → Bool) (xs : List Row)
    → IsUntied xs
    → sorted (filter_by p xs) ≡ filter_by p (sorted xs)
sorted-filter_by p xs u =
    sort_by-Rearranged not_older not_older-trans (filter_by p xs) (filter_by p (sorted xs))
      (Rearranged-filter_by p xs (sorted xs) (Rearranged-sort_by not_older xs))
      (Each-filter_right p (Untied not_older not_older-trans) [] xs u)
    ∙ sorted_lem not_older (filter_by p (sorted xs)) (
        IsSorted-filter_by p not_older (sorted xs)
          (sort_by-IsSorted not_older not_older-total not_older-trans xs))

-- The last key is the key of a row that is there.
last_key-In :
    (rs : List Row) (k : Key) → last_key rs ≡ some k → (r : Row) × In r rs × (key_of r ≡ k)
last_key-In [] k h = cc
last_key-In (r ∷ []) k h = (r, here refl, (cc))
last_key-In (r ∷ s ∷ rs) k h = let (y, i, e) = last_key-In (s ∷ rs) k h in (y, there i, e)

refl_le : (r : Row) → not_older r r ≡ true
unfolding not_older
refl_le r = ground arith

-- The rows that follow a row come before its key.
All-older :
    (r : Row) (rs : List Row) (k : Key)
    → key_of r ≡ k
    → All (λ y. not_older r y ≡ true) rs
    → All (Untied not_older not_older-trans r) rs
    → All (λ y. before (some k) y ≡ true) rs
All-older r [] k e s u = tt
All-older r (y ∷ rs) k e s u =
    let o : not_older y r ≡ false = Untied-false r y s.0 u.0 in
    (ap (λ x. before (some x) y) (sym e) ∙ before-key y r ∙ ap not o, All-older r rs k e s.1 u.1)
  where
    Untied-false :
        (r y : Row)
        → not_older r y ≡ true
        → Untied not_older not_older-trans r y
        → not_older y r ≡ false
    Untied-false r y a b = elim (Bool-cases (not_older y r)) [
      | inl c ↦ let w : true ≡ false = sym a ∙ b ∙ ap not c in cc
      | inr c ↦ c
    ]

pub last_key-All :
    (P : Row → Type 0) (rs : List Row) (k : Key)
    → All P rs
    → last_key rs ≡ some k
    → (r : Row) × P r × (key_of r ≡ k)
last_key-All P rs k a h = let (r, i, e) = last_key-In rs k h in (r, All-In P a i, e)

pub filter_by-All :
    {A : Type 0} (p : A → Bool) (xs : List A) → All (λ x. p x ≡ true) (filter_by p xs)
filter_by-All p [] = tt
filter_by-All p (x ∷ xs) = elim (Bool-cases (p x)) [
  | inl e ↦ rw e (e, filter_by-All p xs)
  | inr e ↦ rw e (filter_by-All p xs)
]

-- A row that is not older than one with the key does not come before the key.
not_before :
    (r : Row) (rs : List Row) (k : Key)
    → All (λ y. not_older r y ≡ true) rs
    → last_key rs ≡ some k
    → before (some k) r ≡ false
not_before r rs k a h =
    let (y, i, e) = last_key-In rs k h in
    let o : not_older r y ≡ true = All-In (λ z. not_older r z ≡ true) a i in
    ap (λ x. before (some x) r) (sym e) ∙ before-key r y ∙ ap not o

-- The rows before the last key of the first n rows are the rows after them.
pub filter_by-before :
    (n : ℕ) (rs : List Row) (k : Key)
    → IsSorted not_older rs
    → IsUntied rs
    → last_key (take n rs) ≡ some k
    → filter_by (before (some k)) rs ≡ drop n rs
filter_by-before zero rs k s u h = cc
filter_by-before (suc n) [] k s u h = cc
filter_by-before (suc zero) (r ∷ rs) k s u h =
    let e : key_of r ≡ k = cc in
    let own : before (some k) r ≡ false = not_before r (r ∷ []) k (refl_le r, tt) h in
    rw own (filter_by-all (before (some k)) rs (All-older r rs k e s.0 u.0))
filter_by-before (suc (suc n)) (r ∷ []) k s u h =
    let own : before (some k) r ≡ false = not_before r (r ∷ []) k (refl_le r, tt) h in rw own
filter_by-before (suc (suc n)) (r ∷ q ∷ rs) k s u h =
    let own : before (some k) r ≡ false =
      not_before r (take (suc n) (q ∷ rs)) k
        (All-take (λ y. not_older r y ≡ true) (suc n) (q ∷ rs) s.0) h in
    rw own (filter_by-before (suc n) (q ∷ rs) k s.1 u.1 h)
