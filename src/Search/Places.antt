-- ===== src/Search/Places.antt =====
-- The places of the ids in the fused ranking, and the scores that come with them.
use klams.Common.{
  ℕ, suc, ◌≤◌, ◌<◌, ◌≡◌, refl, ap, subst, ◌∙◌, inl, inr, Bool, true, false, ◌||◌, Option, none,
  some, List, [], ◌∷◌, arith, ◌==◌, any, All, All-mono, is_some, Bool-cases,
}
use klams.Common.Rearrange.{Rearranged, Each}
use klams.Floats.{F32}
use klams.Hybrid.{RetrievalSource, vector, fts, FusionStrategy, fuse}
use klams.Hybrid.First.{weight, present, first_weight, first_of, fuse-first}
use klams.Rerank.{MemoryKind, fact, event, knowledge}
use klams.Search.{kind}
use klams.Search.Store.{value_of}
use klams.Search.Pipeline.{Entry, Row, same_kind, rows_of_kind, sources_of, positions}

not_found : {A : Type 0} (v : A) → ◌≡◌ {A = Option A} none (some v) → ⊥
not_found v h = cc

module _ {A : Type 0} (Q : A → Type 0) where
  value_of-All :
      (i : ℕ) (rows : List (ℕ × A)) (v : A)
      → All (λ row. Q row.1) rows
      → value_of i rows ≡ some v
      → Q v
  value_of-All i [] v a h = absurd (not_found v h)
  value_of-All i ((j, u) ∷ rows) v a h = elim (Bool-cases (j == i)) [
    | inl e ↦ let k : some u ≡ some v = rw e at h in let q : u ≡ v = cc in subst Q q a.0
    | inr e ↦ let k : value_of i rows ≡ some v = rw e at h in value_of-All i rows v a.1 k
  ]

module _ (f : F32) (rank : f.Float → ℕ) where
  abbrev Place : Type 0
  Place = ℕ × f.Float

  -- The first is further back, and has no greater score.
  abbrev Behind : Place → Place → Type 0
  Behind x y = (y.0 < x.0) × (rank x.1 ≤ rank y.1)

  abbrev pub Ordered : List (ℕ × Place) → Type 0
  Ordered = Each (λ x y. Behind x.1 y.1)

  -- Whatever stands further back has no greater score.
  pub value_of-Ordered :
      (order : List (ℕ × Place)) (i j : ℕ) (v w : Place)
      → Ordered order
      → value_of i order ≡ some v
      → value_of j order ≡ some w
      → v.0 ≤ w.0
      → rank w.1 ≤ rank v.1
  value_of-Ordered [] i j v w o h k l = absurd (not_found v h)
  value_of-Ordered ((n, u) ∷ rows) i j v w o h k l = elim (Bool-cases (n == i)) [
    | inl e ↦ elim (Bool-cases (n == j)) [
      | inl y ↦
          let p : some u ≡ some v = rw e at h in
          let q : some u ≡ some w = rw y at k in
          let r : v ≡ w = cc in omega (arith, ap (λ (x : Place). rank x.1) r)
      | inr y ↦
          let p : some u ≡ some v = rw e at h in
          let r : u ≡ v = cc in
          let q : value_of j rows ≡ some w = rw y at k in
          let b = value_of-All (Behind u) j rows w o.0 q in
          absurd (omega (arith, b.0, l, ap (λ (x : Place). x.0) r))
    ]
    | inr e ↦ elim (Bool-cases (n == j)) [
      | inl y ↦
          let p : value_of i rows ≡ some v = rw e at h in
          let q : some u ≡ some w = rw y at k in
          let r : u ≡ w = cc in
          let b = value_of-All (Behind u) i rows v o.0 p in
          omega (arith, b.1, ap (λ (x : Place). rank x.1) r)
      | inr y ↦
          let p : value_of i rows ≡ some v = rw e at h in
          let q : value_of j rows ≡ some w = rw y at k in value_of-Ordered rows i j v w o.1 p q l
    ]
  ]

  abbrev NoMore : f.Float → List (Row f) → Type 0
  NoMore s rows = All (λ r. rank r.score ≤ rank s) rows

  -- The places so far are before the rest, with no smaller scores.
  abbrev Before : ℕ → List (Row f) → ℕ × Place → Type 0
  Before pos rows x = (x.1.0 < pos) × NoMore x.1.1 rows

  positions-Ordered :
      (pos : ℕ) (rows : List (Row f)) (order : List (ℕ × Place))
      → Each (λ (a b : Row f). rank b.score ≤ rank a.score) rows
      → All (Before pos rows) order
      → Ordered order
      → Ordered (positions f pos rows order)
  positions-Ordered pos [] order s b o = o
  positions-Ordered pos (r ∷ rows) order s b o =
      positions-Ordered (suc pos) rows ((r.id, (pos, r.score)) ∷ order) s.1
        (
          (omega arith, s.0),
          All-mono (Before pos (r ∷ rows)) (Before (suc pos) rows) order
              (λ x h. (omega (arith, h.0), h.1.1)) b,
        )
        (
          All-mono (Before pos (r ∷ rows)) (λ y. Behind (pos, r.score) y.1) order
              (λ x h. (h.0, h.1.0)) b,
          o,
        )

  pub places-Ordered :
      (rows : List (Row f))
      → Each (λ (a b : Row f). rank b.score ≤ rank a.score) rows
      → Ordered (positions f 0 rows [])
  places-Ordered rows s = positions-Ordered 0 rows [] s tt tt

abbrev one : {J : Type 0} → J → ℕ
one j = 1

abbrev source_of : MemoryKind → RetrievalSource
source_of knowledge = vector
source_of fact = fts
source_of event = fts

same_kind_refl : (k : MemoryKind) → same_kind k k ≡ true
same_kind_refl fact = refl
same_kind_refl event = refl
same_kind_refl knowledge = refl

module _ (f : F32) where
  abbrev has : ℕ → List (Row f) → Bool
  has i = present f Unit one i

  positions-has :
      (i pos : ℕ) (rows : List (Row f)) (order : List (ℕ × (ℕ × f.Float)))
      → is_some (value_of i (positions f pos rows order))
        ≡ (is_some (value_of i order) || has i rows)
  positions-has i pos [] order = ground arith
  positions-has i pos (r ∷ rows) order =
      let rest = positions-has i (suc pos) rows ((r.id, (pos, r.score)) ∷ order) in
      ground (arith, rest)

  weighed-has : (i : ℕ) (rows : List (Row f)) → 1 ≤ weight f Unit one i rows → has i rows ≡ true
  weighed-has i [] h = absurd (omega (arith, h))
  weighed-has i (r ∷ rows) h = let rest = weighed-has i rows in ground (arith, rest, h)

  first_weight-has :
      (i : ℕ) (rows : List (Row f)) → has i rows ≡ true → first_weight f Unit one i rows ≡ 1
  first_weight-has i [] h = let k : ◌≡◌ {A = Bool} false true = h in cc
  first_weight-has i (r ∷ rows) h = let rest = first_weight-has i rows in ground (arith, rest, h)

  first_of-has :
      (i : ℕ) (sources : List (List (Row f)))
      → any (has i) sources ≡ true
      → first_of f Unit one i sources ≡ 1
  first_of-has i [] h = let k : ◌≡◌ {A = Bool} false true = h in cc
  first_of-has i (rows ∷ sources) h =
      let rest = first_of-has i sources in
      let here = first_weight-has i rows in ground (arith, rest, here, h)

  -- Every id of the sources has a place.
  placed :
      (values : List (Row f) → List (Row f)) (sources : List (List (Row f)))
      (strategy : FusionStrategy f.Float) (i : ℕ)
      → ((xs : List (Row f)) → Rearranged xs (values xs))
      → any (has i) sources ≡ true
      → is_some (value_of i (positions f 0 (fuse f Unit values sources strategy) [])) ≡ true
  placed values sources strategy i p h =
      let a = fuse-first f Unit one i values sources strategy p in
      let b = first_of-has i sources h in
      let rows = fuse f Unit values sources strategy in
      positions-has i 0 rows [] ∙ weighed-has i rows (omega (arith, a, b))

  module _ (weights : List (ℕ × f.Float)) where
    abbrev OfKind : List (Entry f) → Entry f → Type 0
    OfKind xs e =
        has e.mem.id (rows_of_kind f weights (kind e.mem) (source_of (kind e.mem)) xs) ≡ true

    OfKind-cons :
        (x : Entry f) (xs : List (Entry f)) (e : Entry f) → OfKind xs e → OfKind (x ∷ xs) e
    OfKind-cons x xs e h = elim (Bool-cases (same_kind (kind x.mem) (kind e.mem))) [
      | inl y ↦ rw y (ground (arith, h))
      | inr y ↦ rw y h
    ]

    all-OfKind : (xs : List (Entry f)) → All (OfKind xs) xs
    all-OfKind [] = tt
    all-OfKind (x ∷ xs) = (
      (rw (same_kind_refl (kind x.mem)) (ground arith)),
      All-mono (OfKind xs) (OfKind (x ∷ xs)) xs (OfKind-cons x xs) (all-OfKind xs),
    )

    listed :
        (k : MemoryKind) (i : ℕ) (xs : List (Entry f)) (curated lexical : List ℕ)
        → has i (rows_of_kind f weights k (source_of k) xs) ≡ true
        → any (has i) (sources_of f weights xs curated lexical) ≡ true
    listed knowledge i xs curated lexical h = rw h refl
    listed fact i xs curated lexical h = ground (arith, h)
    listed event i xs curated lexical h = ground (arith, h)

    -- Every entry of the list has a place in the fused ranking.
    pub entries_placed :
        (values : List (Row f) → List (Row f)) (strategy : FusionStrategy f.Float)
        (xs : List (Entry f)) (curated lexical : List ℕ)
        → ((rows : List (Row f)) → Rearranged rows (values rows))
        → All
            (λ (e : Entry f).
              is_some (
                value_of e.mem.id (
                  positions f 0
                    (fuse f Unit values (sources_of f weights xs curated lexical) strategy)
                    []))
              ≡ true)
            xs
    entries_placed values strategy xs curated lexical p =
        All-mono (OfKind xs) _ xs
          (λ e h.
            placed values (sources_of f weights xs curated lexical) strategy e.mem.id p
              (listed (kind e.mem) e.mem.id xs curated lexical h))
          (all-OfKind xs)
