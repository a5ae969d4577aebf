-- ===== src/Search/Stages.antt =====
-- What the stages after the candidates keep of the memories in the list.
use klams.Common.{
  ℕ, suc, ◌<◌, ◌≡◌, refl, sym, ap, subst, ◌∙◌, inl, inr, Bool, not, Option, none, some, List, [],
  ◌∷◌, arith, ltb, length, length-map, map, sum_by, All, All-append, filter_by, Result, ok, err,
  Text, Bool-cases,
}
use klams.Common.Sort.{sort_by, sort_by-All, sum_by-sort_by}
use klams.Floats.{F32}
use klams.Hybrid.{FusionStrategy, fuse}
use klams.Rerank.{Ranking, is_hit, by_rank, number_from, rank_tail, reordered, apply_rerank_order}
use klams.Rerank.Ranks.{rank_hits-some}
use klams.Rerank.Order.{reordered-kept}
use klams.Rerank.Stage.{RerankHit, RerankError, rerank, rerank_stage, applied, candidates, Lists}
use klams.Rerank.Distinct.{Covers, rerank-Covers, All-index}
use klams.Search.{PublicMemory, kind}
use klams.Search.Store.{value_of}
use klams.Search.Pipeline.{
  Entry, Row, renumber_from, renumber_source_ranks, sources_of, positions, rescored, by_position,
  fuse_in_place, reranked, Reranker, text_in, counted,
}

module _ {A : Type 0} (P : A → Type 0) where
  pub All-filter_by : (p : A → Bool) (xs : List A) → All P xs → All P (filter_by p xs)
  All-filter_by p [] h = tt
  All-filter_by p (x ∷ xs) h = elim (Bool-cases (p x)) [
    | inl e ↦ rw e (h.0, All-filter_by p xs h.1)
    | inr e ↦ rw e (All-filter_by p xs h.1)
  ]

-- The memories of ys are those of xs, each as often.
pub record Keeps (f : F32) (xs ys : List (Entry f)) : Type 1 where
  pub each :
      (P : PublicMemory → Type 0)
      → All (λ (e : Entry f). P e.mem) xs
      → All (λ (e : Entry f). P e.mem) ys
  pub total :
      (g : PublicMemory → ℕ)
      → sum_by (λ (e : Entry f). g e.mem) ys ≡ sum_by (λ (e : Entry f). g e.mem) xs

module _ (f : F32) where
  pub Keeps-trans : (xs ys zs : List (Entry f)) → Keeps f xs ys → Keeps f ys zs → Keeps f xs zs
  Keeps-trans xs ys zs a b = record {
    each = λ P h. b.each P (a.each P h);
    total = λ g. b.total g ∙ a.total g;
  }

  renumber_from-each :
      (P : PublicMemory → Type 0) (next : ℕ × (ℕ × ℕ)) (xs : List (Entry f))
      → All (λ (e : Entry f). P e.mem) xs
      → All (λ (e : Entry f). P e.mem) (renumber_from f next xs)
  renumber_from-each P next [] h = tt
  renumber_from-each P next (x ∷ xs) h =
      (h.0, renumber_from-each P (counted (kind x.mem) next) xs h.1)

  renumber_from-total :
      (g : PublicMemory → ℕ) (next : ℕ × (ℕ × ℕ)) (xs : List (Entry f))
      → sum_by (λ (e : Entry f). g e.mem) (renumber_from f next xs)
        ≡ sum_by (λ (e : Entry f). g e.mem) xs
  renumber_from-total g next [] = refl
  renumber_from-total g next (x ∷ xs) =
      omega (arith, renumber_from-total g (counted (kind x.mem) next) xs)

  pub renumber_source_ranks-Keeps : (xs : List (Entry f)) → Keeps f xs (renumber_source_ranks f xs)
  unfolding renumber_source_ranks
  renumber_source_ranks-Keeps xs = record {
    each = λ P h. renumber_from-each P (0, (0, 0)) xs h;
    total = λ g. renumber_from-total g (0, (0, 0)) xs;
  }

  rescored_mem : (o : Option (ℕ × f.Float)) (e : Entry f) → (rescored f o e).mem ≡ e.mem
  rescored_mem none e = refl
  rescored_mem (some p) e = refl

  map_mem-each :
      (P : PublicMemory → Type 0) (h : Entry f → Entry f) (xs : List (Entry f))
      → ((e : Entry f) → (h e).mem ≡ e.mem)
      → All (λ (e : Entry f). P e.mem) xs
      → All (λ (e : Entry f). P e.mem) (map h xs)
  map_mem-each P h [] same a = tt
  map_mem-each P h (x ∷ xs) same a = (subst P (sym (same x)) a.0, map_mem-each P h xs same a.1)

  map_mem-total :
      (g : PublicMemory → ℕ) (h : Entry f → Entry f) (xs : List (Entry f))
      → ((e : Entry f) → (h e).mem ≡ e.mem)
      → sum_by (λ (e : Entry f). g e.mem) (map h xs) ≡ sum_by (λ (e : Entry f). g e.mem) xs
  map_mem-total g h [] same = refl
  map_mem-total g h (x ∷ xs) same = omega (arith, ap g (same x), map_mem-total g h xs same)

  pub fuse_in_place-Keeps :
      (into_values : List (Row f) → List (Row f)) (xs : List (Entry f))
      (strategy : FusionStrategy f.Float) (weights : List (ℕ × f.Float)) (curated lexical : List ℕ)
      → Keeps f xs (fuse_in_place f into_values xs strategy weights curated lexical)
  unfolding fuse_in_place
  fuse_in_place-Keeps into_values xs strategy weights curated lexical =
      let order =
        positions f 0 (fuse f Unit into_values (sources_of f weights xs curated lexical) strategy)
          [] in
      let h : Entry f → Entry f = λ e. rescored f (value_of e.mem.id order) e in
      let same : (e : Entry f) → (h e).mem ≡ e.mem =
        λ e. rescored_mem (value_of e.mem.id order) e in
      record {
        each = λ P a.
            sort_by-All (by_position f order) (λ (e : Entry f). P e.mem) (map h xs)
              (map_mem-each P h xs same a);
        total = λ g.
            sum_by-sort_by (by_position f order) (λ (e : Entry f). g e.mem) (map h xs)
            ∙ map_mem-total g h xs same;
      }

  number_from-each :
      (P : PublicMemory → Type 0) (n : ℕ) (xs : List (Entry f))
      → All (λ (e : Entry f). P e.mem) xs
      → All (λ (e : Entry f). P e.mem) (number_from {S = f.Float} (λ m. m.id) kind n xs)
  number_from-each P n [] h = tt
  number_from-each P n (x ∷ xs) h = (h.0, number_from-each P (suc n) xs h.1)

  reordered-Keeps :
      (xs : List (Entry f)) (curated lexical : List ℕ) (m : Ranking)
      → Keeps f xs (reordered (λ m. m.id) kind xs curated lexical m).0
  reordered-Keeps xs curated lexical m = record {
    each = λ P h.
        let Q : Entry f → Type 0 = λ e. P e.mem in
        let hits = filter_by (λ (e : Entry f). is_hit (λ m. m.id) kind e) xs in
        let le = by_rank {S = f.Float} (λ m. m.id) kind m in
        All-append Q (number_from (λ m. m.id) kind 0 (sort_by le hits))
          (filter_by (λ (e : Entry f). not (is_hit (λ m. m.id) kind e)) xs)
          (number_from-each P 0 (sort_by le hits) (
            sort_by-All le Q hits
              (All-filter_by Q (λ (e : Entry f). is_hit (λ m. m.id) kind e) xs h)))
          (All-filter_by Q (λ (e : Entry f). not (is_hit (λ m. m.id) kind e)) xs h);
    total = λ g. reordered-kept (λ m. m.id) kind g xs curated lexical m;
  }

  abbrev Stage : Type 0
  Stage = Lists f (λ (m : PublicMemory). m.id) kind (λ m. text_in m.content)

  applied-Keeps :
      (l : Stage) (window_ids : List ℕ) (n : ℕ) (r : Result RerankError (List (RerankHit f.Float)))
      → n ≡ length window_ids
      → ((hits : List (RerankHit f.Float)) → r ≡ ok hits → Covers f n hits)
      → (out : Stage) × ((applied f (λ m. m.id) kind (λ m. text_in m.content) l window_ids r
            ≡ some out)
          × Keeps f l.0 out.0)
  unfolding Covers apply_rerank_order
  applied-Keeps l window_ids n (err e) same c =
      (l, (refl, record { each = λ P h. h; total = λ g. refl }))
  applied-Keeps l window_ids n (ok hits) same c =
      let (inside, once) = c hits refl in
      let indices = map (λ (h : RerankHit f.Float). h.index) hits in
      let below : All (λ index. index < length window_ids) indices =
        subst (λ (k : ℕ). All (λ index. index < k) indices) same (All-index n hits inside) in
      let (ranks, e) = rank_hits-some window_ids indices 0 [] below in
      let m = rank_tail (λ (x : PublicMemory). x.id) kind l.0 (length ranks) ranks in
      (reordered (λ x. x.id) kind l.0 l.1.0 l.1.1 m, (rw e refl, reordered-Keeps l.0 l.1.0 l.1.1 m))

  -- The rerank never panics.
  pub reranked-Keeps :
      (o : Option (Text → Reranker f)) (query : Text) (window : ℕ) (l : Stage)
      → (out : Stage) × ((reranked f o query window l ≡ some out) × Keeps f l.0 out.0)
  unfolding rerank_stage
  reranked-Keeps none query window l = (l, (refl, record { each = λ P h. h; total = λ g. refl }))
  reranked-Keeps (some post) query window l =
      let cs = candidates f (λ m. m.id) kind (λ m. text_in m.content) l.0 window in
      let texts = map (λ (e : Entry f). text_in e.mem.content) cs in
      let ids = map (λ (e : Entry f). e.mem.id) cs in
      let a = length-map cs (λ (e : Entry f). text_in e.mem.content) in
      let b = length-map cs (λ (e : Entry f). e.mem.id) in
      let run =
        applied-Keeps l ids (length texts) (rerank f (post query) texts) (omega (arith, a, b))
          (rerank-Covers f (post query) texts) in
      elim (Bool-cases (ltb (length cs) 2)) [
        | inl e ↦ (l, (rw e refl, record { each = λ P h. h; total = λ g. refl }))
        | inr e ↦ (run.0, (rw e run.1.0, run.1.1))
      ]
