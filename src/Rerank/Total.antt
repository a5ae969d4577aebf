-- ===== src/Rerank/Total.antt =====
-- The whole stage, from the candidates to the reordered lists.
use klams.Common.{
  ℕ, zero, suc, ◌≤◌, ◌<◌, Bool, some, List, [], ◌∷◌, map, ltb, ltb→lt, length, length-map, All,
  take, filter_by, Text, Result, ok, err, ◌≡◌, refl, subst, Bool-cases, inl, inr, arith, ◌⊎◌,
}
use klams.Floats.{F32}
use klams.Rerank.{MemoryKind, Scored, Ranking, is_hit}
use klams.Rerank.Order.{Reranked, apply_rerank_order-Reranked}
use klams.Rerank.Stage.{RerankError, RerankHit, rerank, Lists, applied, candidates, rerank_stage}
use klams.Rerank.Distinct.{count, NoDup, Covers, rerank-Covers, NoDup-DistinctHits, All-index}

module _ {A : Type 0} (g : A → ℕ) (x : ℕ) where
  count-take : (n : ℕ) (xs : List A) → count x (map g (take n xs)) ≤ count x (map g xs)
  count-take zero xs = omega arith
  count-take (suc n) [] = omega arith
  count-take (suc n) (y ∷ ys) = let i = count-take n ys in omega (arith, i)

  count-filter_by :
      (p : A → Bool) (xs : List A) → count x (map g (filter_by p xs)) ≤ count x (map g xs)
  count-filter_by p [] = omega arith
  count-filter_by p (y ∷ ys) =
      let i = count-filter_by p ys in
      elim (Bool-cases (p y)) [ inl e ↦ rw e (omega (arith, i)) | inr e ↦ rw e (omega (arith, i)) ]

module _ (f : F32) {M : Type 0} (id : M → ℕ) (kind : M → MemoryKind) (text : M → Text) where
  abbrev ids : List (Scored f.Float M) → List ℕ
  ids es = map (λ (e : Scored f.Float M). id e.mem) es

  candidates-NoDup :
      (scored : List (Scored f.Float M)) (window : ℕ)
      → NoDup (ids scored)
      → NoDup (ids (candidates f id kind text scored window))
  candidates-NoDup scored window d x =
      let g : Scored f.Float M → ℕ = λ e. id e.mem in
      let hits = filter_by (λ (e : Scored f.Float M). is_hit id kind e) scored in
      let a = count-take g x window hits in
      let b = count-filter_by g x (λ (e : Scored f.Float M). is_hit id kind e) scored in
      let c = d x in omega (arith, a, b, c)

  -- After an error the lists are as they were, and after hits reordered for them.
  abbrev pub Staged :
      Lists f id kind text
      → List ℕ
      → Result RerankError (List (RerankHit f.Float))
      → Lists f id kind text
      → Type 0
  Staged l window_ids (err e) r = r ≡ l
  Staged l window_ids (ok hits) r =
      (m : Ranking) × Reranked id kind window_ids (map (λ (h : RerankHit f.Float). h.index) hits)
        l.0 r.0 l.1.0 r.1.0 l.1.1 r.1.1 m

  applied-Staged :
      (l : Lists f id kind text) (window_ids : List ℕ) (n : ℕ)
      (r : Result RerankError (List (RerankHit f.Float)))
      → NoDup window_ids
      → n ≡ length window_ids
      → ((hits : List (RerankHit f.Float)) → r ≡ ok hits → Covers f n hits)
      → (out : Lists f id kind text) × ((applied f id kind text l window_ids r ≡ some out)
          × Staged l window_ids r out)
  unfolding Covers
  applied-Staged l window_ids n (err e) d same c = (l, (refl, refl))
  applied-Staged l window_ids n (ok hits) d same c =
      let (inside, once) = c hits refl in
      let indices = map (λ (h : RerankHit f.Float). h.index) hits in
      let below : All (λ index. index < length window_ids) indices =
        subst (λ (k : ℕ). All (λ index. index < k) indices) same (All-index n hits inside) in
      let (out, (e, more)) =
        apply_rerank_order-Reranked id kind window_ids indices l.0 l.1.0 l.1.1 below
          (NoDup-DistinctHits window_ids indices d once) in
      (out, (e, more))

  -- On a list in which no two memories have one id the rerank stage does not panic, whatever the
  -- model server replies. With fewer than two candidates, or after an error, the list and the two
  -- orders are as they were; after hits, they are reordered by a ranking in which hit number i has
  -- rank i, and no memory is lost or added.
  pub rerank_stage-Staged :
      (post : List Text → Result RerankError (List (RerankHit f.Float))) (l : Lists f id kind text)
      (window : ℕ)
      → NoDup (ids l.0)
      → (out : Lists f id kind text) × ((rerank_stage f id kind text post l window ≡ some out)
          × (((length (candidates f id kind text l.0 window) < 2) × (out ≡ l))
              ⊎ Staged l
                  (ids (candidates f id kind text l.0 window))
                  (rerank f post (map (λ e. text e.mem) (candidates f id kind text l.0 window)))
                  out))
  unfolding rerank_stage
  rerank_stage-Staged post l window d =
      let cs = candidates f id kind text l.0 window in
      let texts = map (λ (e : Scored f.Float M). text e.mem) cs in
      let a = length-map cs (λ (e : Scored f.Float M). text e.mem) in
      let b = length-map cs (λ (e : Scored f.Float M). id e.mem) in
      let run =
        applied-Staged l (ids cs) (length texts) (rerank f post texts)
          (candidates-NoDup l.0 window d) (omega (arith, a, b)) (rerank-Covers f post texts) in
      elim (Bool-cases (ltb (length cs) 2)) [
        | inl e ↦ (l, (rw e refl, inl (ltb→lt (length cs) 2 e, refl)))
        | inr e ↦ (run.0, (rw e run.1.0, inr run.1.1))
      ]
