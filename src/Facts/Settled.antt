-- ===== src/Facts/Settled.antt =====
-- The resolution of dissents, and a new fact, keep the bookkeeping up.
use klams.Common.{
  ℕ, ◌+◌, ◌≡◌, refl, ap, ◌∙◌, sym, inl, inr, Bool, true, false, not, List, [], ◌∷◌, arith, ◌==◌,
  ==_iff, ◌&&◌, any, All, All-mono, Bool-cases, is_some,
}
use klams.Facts.{
  FactRow, DissentRow, Db, DissentStatus, Source, update_where, fact_is, refresh, refresh_rows,
  pending_is, pending_of, is_pending, pending_count,
}
use klams.Facts.Updates.{one, All-update, sum-update_le}
use klams.Facts.Counts.{Consistent, Right, refresh-All, set-Right, any-refresh}
use klams.Facts.Dissents.{resolve, resolved}

module _ {P : Type 0} (rows : DissentRow P → Bool) where
  -- A row that changes has the fact.
  abbrev hit : ℕ → List (DissentRow P) → Bool
  hit fact = any (λ d. rows d && d.fact_id == fact)

  refresh_rows-Right :
      (cs ds : List (DissentRow P)) (facts : List (FactRow P))
      → All (λ f. hit f.id cs ≡ false → Right ds f) facts
      → All (Right ds) (refresh_rows rows cs ds facts)
  unfolding refresh_rows
  refresh_rows-Right [] ds facts h =
      All-mono (λ f. hit f.id [] ≡ false → Right ds f) (Right ds) facts (λ f k. k refl) h
  refresh_rows-Right (d ∷ cs) ds facts h = elim (Bool-cases (rows d)) [
    | inl e ↦ rw e (
        refresh_rows-Right cs ds (refresh d.fact_id ds facts) (
          refresh-All (λ f. hit f.id cs ≡ false → Right ds f) d.fact_id ds facts
            (λ f q u. set-Right d.fact_id ds f q)
            (All-mono (λ f. hit f.id (d ∷ cs) ≡ false → Right ds f)
              (λ f. (f.id == d.fact_id) ≡ false → hit f.id cs ≡ false → Right ds f) facts
              (λ f k q u. k (miss f e q u)) h)))
    | inr e ↦ rw e (
        refresh_rows-Right cs ds facts (
          All-mono (λ f. hit f.id (d ∷ cs) ≡ false → Right ds f)
            (λ f. hit f.id cs ≡ false → Right ds f) facts (λ f k u. k (rw e u)) h))
  ]
    where
      miss :
          (f : FactRow P)
          → rows d ≡ true
          → (f.id == d.fact_id) ≡ false
          → hit f.id cs ≡ false
          → hit f.id (d ∷ cs) ≡ false
      miss f e q u = rw (e, u) (ground (arith, q))

  any-refresh_rows :
      (k : ℕ) (cs ds : List (DissentRow P)) (facts : List (FactRow P))
      → any (fact_is k) (refresh_rows rows cs ds facts) ≡ any (fact_is k) facts
  unfolding refresh_rows
  any-refresh_rows k [] ds facts = refl
  any-refresh_rows k (d ∷ cs) ds facts = elim (Bool-cases (rows d)) [
    | inl e ↦
        rw e
          (any-refresh_rows k cs ds (refresh d.fact_id ds facts) ∙ any-refresh k d.fact_id ds facts)
    | inr e ↦ rw e (any-refresh_rows k cs ds facts)
  ]

  -- The dissents from a fact that no changed row has are counted as before.
  pending_count-miss :
      (fact : ℕ) (g : DissentRow P → DissentRow P) (ds : List (DissentRow P))
      → ((d : DissentRow P) → (g d).fact_id ≡ d.fact_id)
      → hit fact ds ≡ false
      → pending_count fact (update_where rows g ds) ≡ pending_count fact ds
  unfolding pending_count update_where
  pending_count-miss fact g [] k h = refl
  pending_count-miss fact g (d ∷ ds) k h = elim (Bool-cases (rows d)) [
    | inl e ↦ elim (Bool-cases (d.fact_id == fact)) [
      | inl q ↦ let w : true ≡ false = rw (e, q) at h in cc
      | inr q ↦ rw (e, k d, q) (ap (λ n. 0 + n) (pending_count-miss fact g ds k (rw (e, q) at h)))
    ]
    | inr e ↦
        rw e (ap (λ n. one (pending_of fact d) + n) (pending_count-miss fact g ds k (rw e at h)))
  ]

  pub resolve-Consistent :
      (now : ℕ) (status : DissentStatus) (source : Source) (db : Db P)
      → is_pending status ≡ false
      → Consistent db
      → Consistent (resolve now status source rows db)
  unfolding resolve
  resolve-Consistent now status source db s v =
      let g = resolved now status source in
      let ds = update_where rows g db.dissents in
      record {
        counted = refresh_rows-Right db.dissents ds db.facts (
            All-mono (Right db.dissents) (λ f. hit f.id db.dissents ≡ false → Right ds f) db.facts
              (λ f r u. r ∙ sym (pending_count-miss f.id g db.dissents (λ d. refl) u)) v.counted);
        single = λ fact hash.
            let less =
              sum-update_le (λ d. one (pending_is fact hash d)) rows g db.dissents
                (λ x. rw s (omega arith)) in
            omega (arith, less, v.single fact hash);
        linked =
            All-mono (λ d. any (fact_is d.fact_id) db.facts ≡ true)
              (λ d. any (fact_is d.fact_id) (refresh_rows rows db.dissents ds db.facts) ≡ true) ds
              (λ d h. any-refresh_rows d.fact_id db.dissents ds db.facts ∙ h)
              (All-update (λ d. any (fact_is d.fact_id) db.facts ≡ true) rows g db.dissents
                (λ x h. h) v.linked);
        settled =
            All-update (λ d. is_some d.resolved_at ≡ not (is_pending d.status)) rows g db.dissents
              (λ x h. rw s refl) v.settled;
      }

module _ {P : Type 0} where
  no_pending :
      (fact : ℕ) (facts : List (FactRow P)) (ds : List (DissentRow P))
      → any (fact_is fact) facts ≡ false
      → All (λ d. any (fact_is d.fact_id) facts ≡ true) ds
      → pending_count fact ds ≡ 0
  unfolding pending_count
  no_pending fact facts [] n h = refl
  no_pending fact facts (d ∷ ds) n h = elim (Bool-cases (d.fact_id == fact)) [
    | inl e ↦
        let same = ap (λ k. any (fact_is k) facts) ((==_iff d.fact_id fact).0 e) in
        let l = h.0 in cc
    | inr e ↦ let rest = no_pending fact facts ds n h.1 in rw e (omega (arith, rest))
  ]

  -- A new fact with no dissents.
  pub new-Consistent :
      (f : FactRow P) (db : Db P)
      → f.dissent_count ≡ 0
      → any (fact_is f.id) db.facts ≡ false
      → Consistent db
      → Consistent (record db { facts = f ∷ db.facts })
  new-Consistent f db z n v = record {
    counted = (z ∙ sym (no_pending f.id db.facts db.dissents n v.linked), v.counted);
    single = v.single;
    linked =
        All-mono (λ d. any (fact_is d.fact_id) db.facts ≡ true)
          (λ d. any (fact_is d.fact_id) (f ∷ db.facts) ≡ true) db.dissents
          (λ d h. ground (arith, h)) v.linked;
    settled = v.settled;
  }
