-- ===== src/Rerank/Distinct.antt =====
-- The hits of a reply that passes the test, and the memories of the window that they are of.
use klams.Common.{
  ℕ, suc, ◌+◌, ◌≤◌, ◌<◌, Bool, true, false, ◌||◌, some, List, [], ◌∷◌, map, if◌then◌else◌, leb,
  ◌==◌, ==_iff, length, any, All, sum_by, Text, Result, ok, err, ◌≡◌, refl, ap, subst, Bool-cases,
  inl, inr, arith, tests, zero,
}
use klams.Common.Sort.{sort_by, sum_by-sort_by, sort_by-All}
use klams.Floats.{F32}
use klams.Rerank.{get_elem?}
use klams.Rerank.Ranks.{DistinctHits, Unhit}
use klams.Rerank.Stage.{
  RerankError, RerankHit, all_valid, best_first, checked, reply_checked, rerank,
}

-- 1 for the number, 0 for any other.
abbrev pub one_if : ℕ → ℕ → ℕ
one_if x y = if y == x then 1 else 0

-- How often a number stands in a list.
abbrev pub count : ℕ → List ℕ → ℕ
count x xs = sum_by (one_if x) xs

abbrev pub NoDup : List ℕ → Type 0
NoDup xs = (x : ℕ) → count x xs ≤ 1

module _ {F : Type 0} where
  abbrev index_of : RerankHit F → ℕ
  index_of h = h.index

  abbrev times : ℕ → List (RerankHit F) → ℕ
  times x items = sum_by (λ (h : RerankHit F). one_if x h.index) items

  count-map :
      (x : ℕ) (items : List (RerankHit F)) → count x (map (λ h. h.index) items) ≡ times x items
  count-map x [] = refl
  count-map x (h ∷ items) = ap (λ (n : ℕ). one_if x h.index + n) (count-map x items)

  -- The items in range are counted at most once, and not at all if they were seen.
  all_valid-times :
      (n : ℕ) (items : List (RerankHit F)) (seen : List ℕ) (x : ℕ)
      → all_valid n items seen ≡ true
      → times x items + (if any (λ i. i == x) seen then 1 else 0) ≤ 1
  all_valid-times n [] seen x h = elim (Bool-cases (any (λ i. i == x) seen)) [
    | inl e ↦ rw e (omega arith)
    | inr e ↦ rw e (omega arith)
  ]
  all_valid-times n (item ∷ items) seen x h =
      elim (Bool-cases (leb n item.index || any (λ i. i == item.index) seen)) [
        | inl e ↦ let k : ◌≡◌ {A = Bool} false true = rw e at h in cc
        | inr e ↦
            let k : all_valid n items (item.index ∷ seen) ≡ true = rw e at h in
            let i = all_valid-times n items (item.index ∷ seen) x k in
            elim (Bool-cases (item.index == x)) [
              | inr ne ↦
                  let j : times x items + (if any (λ i. i == x) seen then 1 else 0) ≤ 1 =
                    rw ne at i in
                  rw ne (omega (arith, j))
              | inl y ↦
                  let j : times x items + 1 ≤ 1 = rw y at i in
                  let s : any (λ i. i == x) seen ≡ false =
                    subst (λ (z : ℕ). any (λ i. i == z) seen ≡ false) ((==_iff item.index x).0 y)
                      (or_right_false (leb n item.index) (any (λ i. i == item.index) seen) e) in
                  rw (y, s) (omega (arith, j))
            ]
      ]
    where
      or_right_false : (a b : Bool) → (a || b) ≡ false → b ≡ false
      or_right_false true b h = let k : ◌≡◌ {A = Bool} true false = h in cc
      or_right_false false b h = h

  all_valid-inside :
      (n : ℕ) (items : List (RerankHit F)) (seen : List ℕ)
      → all_valid n items seen ≡ true
      → All (λ (h : RerankHit F). h.index < n) items
  all_valid-inside n [] seen h = tt
  all_valid-inside n (item ∷ items) seen h =
      elim (Bool-cases (leb n item.index || any (λ i. i == item.index) seen)) [
        | inl e ↦ let k : ◌≡◌ {A = Bool} false true = rw e at h in cc
        | inr e ↦
            let k : all_valid n items (item.index ∷ seen) ≡ true = rw e at h in
            (
              below (leb n item.index) (any (λ i. i == item.index) seen) e refl,
              all_valid-inside n items (item.index ∷ seen) k,
            )
      ]
    where
      below : (a b : Bool) → (a || b) ≡ false → leb n item.index ≡ a → item.index < n
      below true b h e = let k : ◌≡◌ {A = Bool} true false = h in cc
      below false b h e = grind (tests, e)

get_elem?-count : (xs : List ℕ) (i x : ℕ) → get_elem? xs i ≡ some x → 1 ≤ count x xs
get_elem?-count [] i x h = cc
get_elem?-count (y ∷ xs) zero x h = let k : y ≡ x = cc in rw ((==_iff y x).1 k) (omega arith)
get_elem?-count (y ∷ xs) (suc i) x h = let c = get_elem?-count xs i x h in omega (arith, c)

count_head : (y x : ℕ) (xs : List ℕ) → y ≡ x → count x (y ∷ xs) ≡ 1 + count x xs
count_head y x xs e = rw ((==_iff y x).1 e) refl

get_elem?-unique :
    (xs : List ℕ) (i j x : ℕ) → NoDup xs → get_elem? xs i ≡ some x → get_elem? xs j ≡ some x → i ≡ j
get_elem?-unique [] i j x d a b = cc
get_elem?-unique (y ∷ xs) zero zero x d a b = refl
get_elem?-unique (y ∷ xs) zero (suc j) x d a b =
    let c = get_elem?-count xs j x b in
    let e : y ≡ x = cc in omega (arith, c, count_head y x xs e, d x)
get_elem?-unique (y ∷ xs) (suc i) zero x d a b =
    let c = get_elem?-count xs i x a in
    let e : y ≡ x = cc in omega (arith, c, count_head y x xs e, d x)
get_elem?-unique (y ∷ xs) (suc i) (suc j) x d a b =
    ap suc (get_elem?-unique xs i j x (λ z. let k = d z in omega (arith, k)) a b)

NoDup-Unhit :
    (window_ids hits : List ℕ) (index id : ℕ)
    → NoDup window_ids
    → get_elem? window_ids index ≡ some id
    → count index hits ≡ 0
    → Unhit window_ids id hits
NoDup-Unhit window_ids [] index id d a c = tt
NoDup-Unhit window_ids (j ∷ hits) index id d a c = (
  λ b.
      let same = get_elem?-unique window_ids j index id d b a in
      omega (arith, c, count_head j index hits same),
  NoDup-Unhit window_ids hits index id d a (omega (arith, c)),
)

pub NoDup-DistinctHits :
    (window_ids hits : List ℕ) → NoDup window_ids → NoDup hits → DistinctHits window_ids hits
NoDup-DistinctHits window_ids [] w d = tt
NoDup-DistinctHits window_ids (index ∷ hits) w d = (
  λ id a.
      let k = d index in
      let c : count index hits ≡ 0 = omega (arith, k, count_head index index hits refl) in
      NoDup-Unhit window_ids hits index id w a c,
  NoDup-DistinctHits window_ids hits w (λ z. let k = d z in omega (arith, k)),
)

pub All-index :
    {F : Type 0} (n : ℕ) (hits : List (RerankHit F))
    → All (λ (h : RerankHit F). h.index < n) hits
    → All (λ index. index < n) (map (λ (h : RerankHit F). h.index) hits)
All-index n [] h = tt
All-index n (x ∷ hits) h = (h.0, All-index n hits h.1)

module _ (f : F32) where
  -- What a reply that passes the test gives.
  unfoldable pub Covers : ℕ → List (RerankHit f.Float) → Type 0
  Covers n hits =
      All (λ (h : RerankHit f.Float). h.index < n) hits
      × NoDup (map (λ (h : RerankHit f.Float). h.index) hits)

  checked-Covers :
      (n : ℕ) (items hits : List (RerankHit f.Float)) → checked f n items ≡ ok hits → Covers n hits
  unfolding Covers
  checked-Covers n items hits h = elim (Bool-cases (all_valid n items [])) [
    | inr e ↦
        let k : ◌≡◌ {A = Result RerankError (List (RerankHit f.Float))} (err RerankError.bad_index)
            (ok hits) =
          rw e at h in
        cc
    | inl e ↦ elim (Bool-cases (length items == n)) [
      | inr ne ↦
          let k : ◌≡◌ {A = Result RerankError (List (RerankHit f.Float))}
              (err RerankError.wrong_count) (ok hits) =
            rw (e, ne) at h in
          cc
      | inl y ↦
          let k : ◌≡◌ {A = Result RerankError (List (RerankHit f.Float))}
              (ok (sort_by (best_first f) items)) (ok hits) =
            rw (e, y) at h in
          let same : sort_by (best_first f) items ≡ hits = cc in
          subst
            (λ (l : List (RerankHit f.Float)).
              All (λ (h : RerankHit f.Float). h.index < n) l
              × NoDup (map (λ (h : RerankHit f.Float). h.index) l))
            same
            (
              sort_by-All (best_first f) (λ (h : RerankHit f.Float). h.index < n) items
                  (all_valid-inside n items [] e),
              λ x.
                  let a = count-map x (sort_by (best_first f) items) in
                  let b =
                    sum_by-sort_by (best_first f) (λ (h : RerankHit f.Float). one_if x h.index)
                      items in
                  let c = all_valid-times n items [] x e in omega (arith, a, b, c),
            )
    ]
  ]

  pub rerank-Covers :
      (post : List Text → Result RerankError (List (RerankHit f.Float))) (texts : List Text)
      (hits : List (RerankHit f.Float))
      → rerank f post texts ≡ ok hits
      → Covers (length texts) hits
  unfolding Covers rerank
  rerank-Covers post [] hits h =
      let same : ◌≡◌ {A = List (RerankHit f.Float)} [] hits = cc in
      subst
        (λ (l : List (RerankHit f.Float)).
          All (λ (h : RerankHit f.Float). h.index < 0) l
          × NoDup (map (λ (h : RerankHit f.Float). h.index) l))
        same (tt, λ x. omega arith)
  rerank-Covers post (t ∷ ts) hits h = by_reply (post (t ∷ ts)) h
    where
      by_reply :
          (r : Result RerankError (List (RerankHit f.Float)))
          → reply_checked f (length (t ∷ ts)) r ≡ ok hits
          → Covers (length (t ∷ ts)) hits
      by_reply (err e) h =
          let k : ◌≡◌ {A = Result RerankError (List (RerankHit f.Float))} (err e) (ok hits) = h in
          elim (not_ok k) [ ]
        where
          not_ok : ◌≡◌ {A = Result RerankError (List (RerankHit f.Float))} (err e) (ok hits) → ⊥
          not_ok k = cc
      by_reply (ok items) h = checked-Covers (length (t ∷ ts)) items hits h
