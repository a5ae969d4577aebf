-- ===== src/Rerank/Order.antt =====
-- What a rerank does to the result list and to the two orders.
use klams.Common.{
  ℕ, zero, suc, ◌+◌, Bool, true, false, not, some, List, [], ◌∷◌, ◌++◌, map, leb, leb→le, le→leb,
  length, sum_by, sum_by-append, All, filter_by, ◌≡◌, refl, sym, ap, subst, ◌∙◌, arith, tests, ◌≤◌,
  ◌<◌, Perm,
}
use klams.Common.Sort.{
  sort_by, IsSorted, sort_by-IsSorted, sort_by-perm, sort_by-All, sum_by-sort_by, length-sort_by,
}
use klams.Rerank.{
  Ranking, MemoryKind, Scored, is_hit, is_knowledge, by_rank, ids_by_rank, number_from, rank_u32,
  rank_of, rank_tail, reordered, get_elem?, apply_rerank_order, or_last,
}
use klams.Rerank.Filter.{
  filter_by-append, filter_by_all, filter_by_none, filter_by-All, sum_by-filter_by, All-not,
  All-true, append_nil,
}
use klams.Rerank.Ranks.{DistinctHits, rank_hits-rank, rank_hits-some, rank_tail-kept}

-- The ranks n, n + 1 and so on.
abbrev pub ranks_from : ℕ → ℕ → List ℕ
ranks_from n zero = []
ranks_from n (suc k) = rank_u32 n ∷ ranks_from (suc n) k

leb_total : (a b : ℕ) → leb a b ≡ false → b ≤ a
leb_total a b h = grind (tests, h)

ids-IsSorted : (m : Ranking) (xs : List ℕ) → IsSorted (ids_by_rank m) (sort_by (ids_by_rank m) xs)
ids-IsSorted m xs =
    sort_by-IsSorted (ids_by_rank m)
      (λ a b h. le→leb (rank_of m b) (rank_of m a) (leb_total (rank_of m a) (rank_of m b) h))
      (λ a b c h k.
        let x = leb→le (rank_of m a) (rank_of m b) h in
        let y = leb→le (rank_of m b) (rank_of m c) k in
        le→leb (rank_of m a) (rank_of m c) (omega (arith, x, y)))
      xs

module _ {S M : Type 0} (id : M → ℕ) (kind : M → MemoryKind) where
  abbrev OfMem : (M → Bool) → Scored S M → Type 0
  OfMem p e = p e.mem ≡ true

  number_from-All :
      (p : M → Bool) (n : ℕ) (xs : List (Scored S M))
      → All (OfMem p) xs
      → All (OfMem p) (number_from id kind n xs)
  number_from-All p n [] h = tt
  number_from-All p n (x ∷ xs) h = (h.0, number_from-All p (suc n) xs h.1)

  sum_by-number_from :
      (f : M → ℕ) (n : ℕ) (xs : List (Scored S M))
      → sum_by (λ (e : Scored S M). f e.mem) (number_from id kind n xs)
        ≡ sum_by (λ (e : Scored S M). f e.mem) xs
  sum_by-number_from f n [] = refl
  sum_by-number_from f n (x ∷ xs) = omega (arith, sum_by-number_from f (suc n) xs)

  number_from-ranks :
      (n : ℕ) (xs : List (Scored S M))
      → map (λ (e : Scored S M). e.source_rank) (number_from id kind n xs)
        ≡ ranks_from n (length xs)
  number_from-ranks n [] = refl
  number_from-ranks n (x ∷ xs) = rw (number_from-ranks (suc n) xs) refl

  number_from-IsSorted :
      (m : Ranking) (n : ℕ) (xs : List (Scored S M))
      → IsSorted (by_rank id kind m) xs
      → IsSorted (by_rank id kind m) (number_from id kind n xs)
  number_from-IsSorted m n [] h = tt
  number_from-IsSorted m n (x ∷ xs) h = (
    number_from-All (λ y. leb (rank_of m (id x.mem)) (rank_of m (id y))) (suc n) xs h.0,
    number_from-IsSorted m (suc n) xs h.1,
  )

  -- What a rerank promises, for some ranking of the memories.
  pub record Reranked (window_ids hits : List ℕ) (scored scored' : List (Scored S M))
      (curated curated' lexical lexical' : List ℕ) (m : Ranking) : Type 0 where
    -- whatever is counted of memories
    pub kept :
        (f : M → ℕ)
        → sum_by (λ (e : Scored S M). f e.mem) scored' ≡ sum_by (λ (e : Scored S M). f e.mem) scored
    pub others :
        filter_by (λ e. not (is_hit id kind e)) scored'
        ≡ filter_by (λ e. not (is_hit id kind e)) scored
    pub numbered :
        map (λ (e : Scored S M). e.source_rank) (filter_by (is_hit id kind) scored')
        ≡ ranks_from 0 (length (filter_by (is_hit id kind) scored))
    pub in_order : IsSorted (by_rank id kind m) (filter_by (is_hit id kind) scored')
    pub curated_order : IsSorted (ids_by_rank m) curated' × Perm curated' curated
    pub lexical_order : IsSorted (ids_by_rank m) lexical' × Perm lexical' lexical
    pub ranked :
        (i index x : ℕ)
        → get_elem? hits i ≡ some index
        → get_elem? window_ids index ≡ some x
        → rank_of m x ≡ i

  hits-IsSorted :
      (m : Ranking) (xs : List (Scored S M))
      → IsSorted (by_rank id kind m) (sort_by (by_rank id kind m) xs)
  hits-IsSorted m xs =
      sort_by-IsSorted (by_rank id kind m)
        (λ a b h.
          le→leb (rank_of m (id b.mem)) (rank_of m (id a.mem))
            (leb_total (rank_of m (id a.mem)) (rank_of m (id b.mem)) h))
        (λ a b c h k.
          let x = leb→le (rank_of m (id a.mem)) (rank_of m (id b.mem)) h in
          let y = leb→le (rank_of m (id b.mem)) (rank_of m (id c.mem)) k in
          le→leb (rank_of m (id a.mem)) (rank_of m (id c.mem)) (omega (arith, x, y)))
        xs

  -- Whatever is counted of memories is as before.
  pub reordered-kept :
      (f : M → ℕ) (scored : List (Scored S M)) (curated lexical : List ℕ) (m : Ranking)
      → sum_by (λ (e : Scored S M). f e.mem) (reordered id kind scored curated lexical m).0
        ≡ sum_by (λ (e : Scored S M). f e.mem) scored
  reordered-kept f scored curated lexical m =
      let is_k : Scored S M → Bool = is_hit id kind in
      let sorted = sort_by (by_rank id kind m) (filter_by is_k scored) in
      let g : Scored S M → ℕ = λ e. f e.mem in
      let a =
        sum_by-append g (number_from id kind 0 sorted) (filter_by (λ e. not (is_k e)) scored) in
      let b = sum_by-number_from f 0 sorted in
      let c = sum_by-sort_by (by_rank id kind m) g (filter_by is_k scored) in
      let d = sum_by-filter_by is_k g scored in omega (arith, a, b, c, d)

  reordered-Reranked :
      (window_ids hits : List ℕ) (scored : List (Scored S M)) (curated lexical : List ℕ)
      (m : Ranking)
      → ((i index x : ℕ)
          → get_elem? hits i ≡ some index
          → get_elem? window_ids index ≡ some x
          → rank_of m x ≡ i)
      → Reranked window_ids hits scored
          (reordered id kind scored curated lexical m).0
          curated
          (reordered id kind scored curated lexical m).1.0
          lexical
          (reordered id kind scored curated lexical m).1.1
          m
  reordered-Reranked window_ids hits scored curated lexical m r =
      let is_k : Scored S M → Bool = is_hit id kind in
      let no_k : Scored S M → Bool = λ e. not (is_hit id kind e) in
      let sorted = sort_by (by_rank id kind m) (filter_by is_k scored) in
      let front = number_from id kind 0 sorted in
      let rest = filter_by no_k scored in
      let all_k =
        number_from-All (λ x. is_knowledge (kind x)) 0 sorted
          (sort_by-All (by_rank id kind m) (λ (e : Scored S M). is_hit id kind e ≡ true)
            (filter_by is_k scored) (filter_by-All is_k scored)) in
      let no_rest = filter_by-All no_k scored in
      let is_front : filter_by is_k (front ++ rest) ≡ front =
        filter_by-append is_k front rest
        ∙ rw (filter_by_all is_k front all_k, filter_by_none is_k rest (All-not is_k rest no_rest))
            (append_nil front) in
      let is_rest : filter_by no_k (front ++ rest) ≡ rest =
        filter_by-append no_k front rest
        ∙ rw
            (filter_by_none no_k front (All-true is_k front all_k), filter_by_all no_k rest no_rest)
            refl in
      record {
        kept = λ f. reordered-kept f scored curated lexical m;
        others = is_rest;
        numbered =
            ap (map (λ (e : Scored S M). e.source_rank)) is_front
            ∙ number_from-ranks 0 sorted
            ∙ ap (ranks_from 0) (length-sort_by (by_rank id kind m) (filter_by is_k scored));
        in_order =
            subst (IsSorted (by_rank id kind m)) (sym is_front)
              (number_from-IsSorted m 0 sorted (hits-IsSorted m (filter_by is_k scored)));
        curated_order = (ids-IsSorted m curated, sort_by-perm (ids_by_rank m) curated);
        lexical_order = (ids-IsSorted m lexical, sort_by-perm (ids_by_rank m) lexical);
        ranked = r;
      }

  -- Where the hits are of distinct memories of the window, the rerank does not panic, and there is a
  -- ranking in which hit number i has rank i: the knowledge of the result is sorted by it and
  -- numbered from 0, and the two orders are sorted by it; facts and events stay as they are, and no
  -- memory is lost or added.
  pub apply_rerank_order-Reranked :
      (window_ids hits : List ℕ) (scored : List (Scored S M)) (curated lexical : List ℕ)
      → All (λ index. index < length window_ids) hits
      → DistinctHits window_ids hits
      → (r : List (Scored S M) × (List ℕ × List ℕ)) × ((apply_rerank_order id kind scored curated
              lexical window_ids hits
            ≡ some r)
          × ((m : Ranking) × Reranked window_ids hits scored r.0 curated r.1.0 lexical r.1.1 m))
  unfolding apply_rerank_order
  apply_rerank_order-Reranked window_ids hits scored curated lexical inside d =
      let (ranks, e) = rank_hits-some window_ids hits 0 [] inside in
      let m = rank_tail id kind scored (length ranks) ranks in
      let r : (i index x : ℕ)
          → get_elem? hits i ≡ some index
          → get_elem? window_ids index ≡ some x
          → rank_of m x ≡ i =
        λ i index x a w.
          let z : 0 + i ≡ i = omega arith in
          let l = rank_hits-rank window_ids hits 0 [] ranks i index x e d a w in
          ap or_last (rank_tail-kept id kind scored (length ranks) ranks x (0 + i) l) ∙ z in
      (
        reordered id kind scored curated lexical m,
        (rw e refl, (m, reordered-Reranked window_ids hits scored curated lexical m r)),
      )
