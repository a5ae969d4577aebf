-- ===== src/Common/Rearrange.antt =====
-- Rearrangements of a list, and when sorting forgets them: no two items are tied.
use klams.Common.Tests.{Bool-cases}
use klams.Common.Lists.{All}
use klams.Common.Sort.{insert, sort_by}
use mathlib.Core.Path.{◌≡◌, refl, ap, sym, ◌∙◌}
use mathlib.Core.Logic.{inl, inr}
use mathlib.Core.Bool.{Bool, true, false, not}
use mathlib.Core.List.{List, [], ◌∷◌}

-- One list holds the items of the other in some order.
pub data Rearranged {ℓ} {A : Type ℓ} : List A → List A → Type ℓ where
  same : (xs : List A) → Rearranged xs xs
  under : (x : A) (xs ys : List A) → Rearranged xs ys → Rearranged (x ∷ xs) (x ∷ ys)
  exchange : (x y : A) (xs : List A) → Rearranged (x ∷ y ∷ xs) (y ∷ x ∷ xs)
  twice : (xs ys zs : List A) → Rearranged xs ys → Rearranged ys zs → Rearranged xs zs

module _ {A : Type 0} (R : A → A → Type 0) where
  -- Every two items are in the relation.
  abbrev pub Each : List A → Type 0
  Each [] = Unit
  Each (x ∷ xs) = All (R x) xs × Each xs

pub All-Rearranged :
    {A : Type 0} (P : A → Type 0) (xs ys : List A) → Rearranged xs ys → All P xs → All P ys
All-Rearranged P _ _ (same xs) h = h
All-Rearranged P _ _ (under x xs ys p) h = (h.0, All-Rearranged P xs ys p h.1)
All-Rearranged P _ _ (exchange x y xs) h = (h.1.0, (h.0, h.1.1))
All-Rearranged P _ _ (twice xs ys zs p q) h = All-Rearranged P ys zs q (All-Rearranged P xs ys p h)

pub Each-Rearranged :
    {A : Type 0} (R : A → A → Type 0)
    → ((x y : A) → R x y → R y x)
    → (xs ys : List A) → Rearranged xs ys
    → Each R xs
    → Each R ys
Each-Rearranged R s _ _ (same xs) h = h
Each-Rearranged R s _ _ (under x xs ys p) h =
    (All-Rearranged (R x) xs ys p h.0, Each-Rearranged R s xs ys p h.1)
Each-Rearranged R s _ _ (exchange x y xs) h = ((s x y h.0.0, h.1.0), (h.0.1, h.1.1))
Each-Rearranged R s _ _ (twice xs ys zs p q) h =
    Each-Rearranged R s ys zs q (Each-Rearranged R s xs ys p h)

module _ {A : Type 0} (le : A → A → Bool)
    (trans : (a b c : A) → le a b ≡ true → le b c ≡ true → le a c ≡ true) where
  -- Just one of the two orders holds.
  abbrev pub Untied : A → A → Type 0
  Untied a b = le a b ≡ not (le b a)

  pub Untied-sym : (a b : A) → Untied a b → Untied b a
  Untied-sym a b h = elim (Bool-cases (le b a)) [
    | inl e ↦ let k : le a b ≡ false = rw e at h in rw (e, k)
    | inr e ↦ let k : le a b ≡ true = rw e at h in rw (e, k)
  ]

  insert-insert :
      (a b : A) (xs : List A)
      → le a b ≡ true
      → le b a ≡ false
      → insert le a (insert le b xs) ≡ insert le b (insert le a xs)
  unfolding insert
  insert-insert a b [] h n = rw (h, n)
  insert-insert a b (y ∷ ys) h n = elim (Bool-cases (le a y)) [
    | inl ay ↦ elim (Bool-cases (le b y)) [
      | inl by ↦ rw (ay, by, h, n)
      | inr by ↦ rw (ay, by, n, insert) (rw ay)
    ]
    | inr ay ↦ elim (Bool-cases (le b y)) [
      | inl by ↦ let k = trans a b y h by in cc
      | inr by ↦ rw (ay, by, insert) (rw ay (ap (◌∷◌ y) (insert-insert a b ys h n)))
    ]
  ]

  -- Sorting forgets the order of a list with no ties.
  pub sort_by-Rearranged :
      (xs ys : List A) → Rearranged xs ys → Each Untied xs → sort_by le xs ≡ sort_by le ys
  unfolding sort_by
  sort_by-Rearranged _ _ (same xs) h = refl
  sort_by-Rearranged _ _ (under x xs ys p) h = ap (insert le x) (sort_by-Rearranged xs ys p h.1)
  sort_by-Rearranged _ _ (exchange x y xs) h = elim (Bool-cases (le y x)) [
    | inl e ↦ let k : le x y ≡ false = rw e at h.0.0 in sym (insert-insert y x (sort_by le xs) e k)
    | inr e ↦ let k : le x y ≡ true = rw e at h.0.0 in insert-insert x y (sort_by le xs) k e
  ]
  sort_by-Rearranged _ _ (twice xs ys zs p q) h =
      sort_by-Rearranged xs ys p h
      ∙ sort_by-Rearranged ys zs q (Each-Rearranged Untied Untied-sym xs ys p h)
