-- ===== src/Rerank/Ranks.antt =====
-- The ranks that a rerank gives: hit number i of the reranker has rank i.
use klams.Common.{
  ℕ, zero, suc, ◌+◌, Bool, true, false, not, ◌&&◌, Option, none, some, List, [], ◌∷◌, filter_by,
  ◌==◌, ==_iff, ◌≡◌, ◌≢◌, refl, sym, ap, subst, ◌∙◌, Bool-cases, Option-cases, inl, inr, arith, All,
  length, ◌<◌,
}
use klams.Rerank.{
  Ranking, lookup, contains_key, put, get_elem?, rank_hits, Scored, MemoryKind, is_hit, rank_tail,
}

lookup-filter :
    (i id : ℕ) (m : Ranking)
    → (i == id) ≡ false
    → lookup id (filter_by (λ row. not (row.0 == i)) m) ≡ lookup id m
lookup-filter i id [] ne = refl
lookup-filter i id ((j, r) ∷ rows) ne = elim (Bool-cases (j == i)) [
  | inl e ↦
      let k : (j == id) ≡ false = ap (λ (x : ℕ). x == id) ((==_iff j i).0 e) ∙ ne in
      rw (e, k) (lookup-filter i id rows ne)
  | inr e ↦ elim (Bool-cases (j == id)) [
    | inl y ↦ rw (e, y) refl
    | inr y ↦ rw (e, y) (lookup-filter i id rows ne)
  ]
]

lookup-put-other :
    (i id r : ℕ) (m : Ranking) → (i == id) ≡ false → lookup id (put i r m) ≡ lookup id m
lookup-put-other i id r m ne = rw ne (lookup-filter i id m ne)

lookup-contains_key : (id r : ℕ) (m : Ranking) → lookup id m ≡ some r → contains_key id m ≡ true
lookup-contains_key id r [] h = cc
lookup-contains_key id r ((i, s) ∷ rows) h = elim (Bool-cases (i == id)) [
  | inl e ↦ rw e refl
  | inr e ↦
      let k : lookup id rows ≡ some r = rw e at h in rw (e, lookup-contains_key id r rows k) refl
]

-- The id is not that of a hit.
abbrev pub Unhit : List ℕ → ℕ → List ℕ → Type 0
Unhit window_ids id [] = Unit
Unhit window_ids id (index ∷ hits) =
    (get_elem? window_ids index ≢ some id) × Unhit window_ids id hits

-- No two hits are of one memory.
abbrev pub DistinctHits : List ℕ → List ℕ → Type 0
DistinctHits window_ids [] = Unit
DistinctHits window_ids (index ∷ hits) =
    ((id : ℕ) → get_elem? window_ids index ≡ some id → Unhit window_ids id hits)
    × DistinctHits window_ids hits

rank_hits-kept :
    (window_ids hits : List ℕ) (n : ℕ) (m ranks : Ranking) (id r : ℕ)
    → rank_hits window_ids hits n m ≡ some ranks
    → Unhit window_ids id hits
    → lookup id m ≡ some r
    → lookup id ranks ≡ some r
rank_hits-kept window_ids [] n m ranks id r h u l =
    let e : m ≡ ranks = cc in subst (λ (x : Ranking). lookup id x ≡ some r) e l
rank_hits-kept window_ids (index ∷ hits) n m ranks id r h u l =
    elim (Option-cases (get_elem? window_ids index)) [
      | inl e ↦ let k : ◌≡◌ {A = Option Ranking} none (some ranks) = rw e at h in cc
      | inr (i, e) ↦
          let k : rank_hits window_ids hits (suc n) (put i n m) ≡ some ranks = rw e at h in
          elim (Bool-cases (i == id)) [
            | inl y ↦ elim (u.0 (e ∙ ap (λ (x : ℕ). some x) ((==_iff i id).0 y))) [ ]
            | inr y ↦
                rank_hits-kept window_ids hits (suc n) (put i n m) ranks id r k u.1
                  (lookup-put-other i id n m y ∙ l)
          ]
    ]

-- Where the hits are of distinct memories, hit number i has rank n + i.
pub rank_hits-rank :
    (window_ids hits : List ℕ) (n : ℕ) (m ranks : Ranking) (i index id : ℕ)
    → rank_hits window_ids hits n m ≡ some ranks
    → DistinctHits window_ids hits
    → get_elem? hits i ≡ some index
    → get_elem? window_ids index ≡ some id
    → lookup id ranks ≡ some (n + i)
rank_hits-rank window_ids [] n m ranks i index id h d a w = cc
rank_hits-rank window_ids (x ∷ hits) n m ranks zero index id h d a w =
    let e : x ≡ index = cc in
    let y : get_elem? window_ids x ≡ some id = ap (λ (z : ℕ). get_elem? window_ids z) e ∙ w in
    let k : rank_hits window_ids hits (suc n) (put id n m) ≡ some ranks = rw y at h in
    let z : n ≡ n + 0 = omega arith in
    let first : lookup id (put id n m) ≡ some n = rw ((==_iff id id).1 refl) refl in
    rank_hits-kept window_ids hits (suc n) (put id n m) ranks id n k (d.0 id y) first
    ∙ ap (λ (v : ℕ). some v) z
rank_hits-rank window_ids (x ∷ hits) n m ranks (suc i) index id h d a w =
    elim (Option-cases (get_elem? window_ids x)) [
      | inl e ↦ let k : ◌≡◌ {A = Option Ranking} none (some ranks) = rw e at h in cc
      | inr (j, e) ↦
          let k : rank_hits window_ids hits (suc n) (put j n m) ≡ some ranks = rw e at h in
          let s : suc n + i ≡ n + suc i = omega arith in
          rank_hits-rank window_ids hits (suc n) (put j n m) ranks i index id k d.1 a w
          ∙ ap (λ (v : ℕ). some v) s
    ]

and_not : (a b : Bool) → b ≡ true → (a && not b) ≡ false
and_not true b h = ap not h
and_not false b h = refl

-- Ranking the rest leaves the ranks that are there.
pub rank_tail-kept :
    {S M : Type 0} (id : M → ℕ) (kind : M → MemoryKind) (es : List (Scored S M)) (next : ℕ)
    (m : Ranking) (i r : ℕ)
    → lookup i m ≡ some r
    → lookup i (rank_tail id kind es next m) ≡ some r
rank_tail-kept id kind [] next m i r h = h
rank_tail-kept id kind (e ∷ es) next m i r h =
    elim (Bool-cases (is_hit id kind e && not (contains_key (id e.mem) m))) [
      | inr n ↦ rw n (rank_tail-kept id kind es next m i r h)
      | inl y ↦ elim (Bool-cases (id e.mem == i)) [
        | inr ne ↦ rw y (
            rank_tail-kept id kind es (suc next) (put (id e.mem) next m) i r
              (lookup-put-other (id e.mem) i next m ne ∙ h))
        | inl same ↦
            let k : id e.mem ≡ i = (==_iff (id e.mem) i).0 same in
            let c : contains_key (id e.mem) m ≡ true =
              ap (λ (x : ℕ). contains_key x m) k ∙ lookup-contains_key i r m h in
            let no_new = sym (and_not (is_hit id kind e) (contains_key (id e.mem) m) c) ∙ y in cc
      ]
    ]

get_elem?-some : (xs : List ℕ) (i : ℕ) → i < length xs → (x : ℕ) × (get_elem? xs i ≡ some x)
get_elem?-some [] i h = let none_left : ⊥ = omega (arith, h) in elim none_left [ ]
get_elem?-some (x ∷ xs) zero h = (x, refl)
get_elem?-some (x ∷ xs) (suc i) h = get_elem?-some xs i (omega (arith, h))

pub rank_hits-some :
    (window_ids hits : List ℕ) (n : ℕ) (m : Ranking)
    → All (λ index. index < length window_ids) hits
    → (ranks : Ranking) × (rank_hits window_ids hits n m ≡ some ranks)
rank_hits-some window_ids [] n m h = (m, refl)
rank_hits-some window_ids (index ∷ hits) n m h =
    let (id, e) = get_elem?-some window_ids index h.0 in
    rw e (rank_hits-some window_ids hits (suc n) (put id n m) h.1)
