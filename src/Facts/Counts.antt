-- ===== src/Facts/Counts.antt =====
-- The bookkeeping of dissents: what the triggers and the `ON CONFLICT` clause keep up.
use klams.Common.{
  ℕ, suc, ◌≤◌, ◌≡◌, refl, ap, ◌∙◌, sym, inl, inr, Bool, true, false, not, List, [], ◌∷◌, arith,
  ◌==◌, ==_iff, ◌||◌, any, All, All-mono, sum_by, Text, text_eq_iff, Bool-cases, Option-cases,
  is_some,
}
use klams.Facts.{
  FactRow, DissentRow, Db, after, find_by, update_where, fact_is, refresh, pending_is, pending_of,
  is_pending, pending_count, i32_max, backend, dissent_is,
}
use klams.Facts.Rows.{after-if, find_by-none}
use klams.Facts.Updates.{one, All-update, sum-update, any-update, sum-none}
use klams.Facts.Write.{file_dissent, inserted, resubmitted, again, author_known}

-- What holds of the tables, and is kept by every operation.
pub record Consistent {P : Type 0} (db : Db P) : Type 0 where
  -- The column `dissent_count` counts the pending dissents from the fact.
  pub counted : All (λ f. f.dissent_count ≡ pending_count f.id db.dissents) db.facts
  -- A fact and a payload have one pending dissent at most.
  pub single : (fact : ℕ) (hash : Text) → sum_by (λ d. one (pending_is fact hash d)) db.dissents ≤ 1
  -- A dissent is from a fact that is there.
  pub linked : All (λ d. any (fact_is d.fact_id) db.facts ≡ true) db.dissents
  -- A dissent has a time of its resolution if and only if it is not pending.
  pub settled : All (λ d. is_some d.resolved_at ≡ not (is_pending d.status)) db.dissents

apart : (n m : ℕ) → (n == m) ≡ false → (m == n) ≡ false
apart n m h = ground (arith, h)

module _ {P : Type 0} where
  -- The count of a fact's row is right.
  abbrev pub Right : List (DissentRow P) → FactRow P → Type 0
  Right ds f = f.dissent_count ≡ pending_count f.id ds

  -- The trigger sets the rows of its fact and leaves the others alone.
  pub refresh-All :
      (Q : FactRow P → Type 0) (i : ℕ) (ds : List (DissentRow P)) (facts : List (FactRow P))
      → ((f : FactRow P) → (f.id == i) ≡ true → Q (record f { dissent_count = pending_count i ds }))
      → All (λ f. (f.id == i) ≡ false → Q f) facts
      → All Q (refresh i ds facts)
  unfolding refresh update_where
  refresh-All Q i ds [] k h = tt
  refresh-All Q i ds (f ∷ facts) k h = (
    elim (Bool-cases (f.id == i)) [ inl e ↦ rw e (k f e) | inr e ↦ rw e (h.0 e) ],
    refresh-All Q i ds facts k h.1,
  )

  -- The count that the trigger sets is right.
  pub set-Right :
      (i : ℕ) (ds : List (DissentRow P)) (f : FactRow P)
      → (f.id == i) ≡ true
      → Right ds (record f { dissent_count = pending_count i ds })
  set-Right i ds f e = ap (λ n. pending_count n ds) (sym ((==_iff f.id i).0 e))

  pub any-refresh :
      (k i : ℕ) (ds : List (DissentRow P)) (facts : List (FactRow P))
      → any (fact_is k) (refresh i ds facts) ≡ any (fact_is k) facts
  unfolding refresh
  any-refresh k i ds facts =
      any-update (fact_is k) (fact_is i)
        (λ (f : FactRow P). record f { dissent_count = pending_count i ds }) facts (λ x. refl)

  -- A test of the facts by id that is true of `facts` stays true of `facts'`.
  linked_mono :
      (facts facts' : List (FactRow P)) (ds : List (DissentRow P))
      → ((k : ℕ) → any (fact_is k) facts ≡ true → any (fact_is k) facts' ≡ true)
      → All (λ d. any (fact_is d.fact_id) facts ≡ true) ds
      → All (λ d. any (fact_is d.fact_id) facts' ≡ true) ds
  linked_mono facts facts' ds k = All-mono _ _ ds (λ d. k d.fact_id)

  -- A write of facts that leaves their ids and counts alone.
  pub facts_update-Consistent :
      (q : FactRow P → Bool) (g : FactRow P → FactRow P) (db : Db P)
      → ((x : FactRow P) → (g x).id ≡ x.id)
      → ((x : FactRow P) → (g x).dissent_count ≡ x.dissent_count)
      → Consistent db
      → Consistent (record db { facts = update_where q g db.facts })
  facts_update-Consistent q g db ids counts v = record {
    counted =
        All-update (Right db.dissents) q g db.facts
          (λ x r. counts x ∙ r ∙ ap (λ n. pending_count n db.dissents) (sym (ids x))) v.counted;
    single = v.single;
    linked =
        linked_mono db.facts (update_where q g db.facts) db.dissents
          (λ k h. any-update (fact_is k) q g db.facts (λ x. ap (λ n. n == k) (ids x)) ∙ h) v.linked;
    settled = v.settled;
  }

  pending_is-key :
      (fact : ℕ) (hash : Text) (d : DissentRow P)
      → pending_is fact hash d ≡ true
      → (d.fact_id ≡ fact) × (d.payload_hash ≡ hash)
  pending_is-key fact hash d h = ground (arith, h, text_eq_iff d.payload_hash hash)

  inserted-Consistent :
      (row : DissentRow P) (db : Db P)
      → any (pending_is row.fact_id row.payload_hash) db.dissents ≡ false
      → any (fact_is row.fact_id) db.facts ≡ true
      → is_some row.resolved_at ≡ not (is_pending row.status)
      → Consistent db
      → Consistent (inserted row db)
  unfolding pending_count
  inserted-Consistent row db fresh there state v = record {
    counted =
        refresh-All (Right (row ∷ db.dissents)) row.fact_id (row ∷ db.dissents) db.facts
          (set-Right row.fact_id (row ∷ db.dissents))
          (All-mono (Right db.dissents)
            (λ f. (f.id == row.fact_id) ≡ false → Right (row ∷ db.dissents) f) db.facts
            (λ f r e. let o = apart f.id row.fact_id e in rw o (omega (arith, r))) v.counted);
    single = λ fact hash. elim (Bool-cases (pending_is fact hash row)) [
      | inl e ↦
          let key = pending_is-key fact hash row e in
          let fresh' : any (pending_is fact hash) db.dissents ≡ false =
            rw (← key.0, ← key.1) fresh in
          rw e (omega (arith, sum-none (pending_is fact hash) db.dissents fresh'))
      | inr e ↦ rw e (omega (arith, v.single fact hash))
    ];
    linked = (
      any-refresh row.fact_id row.fact_id (row ∷ db.dissents) db.facts ∙ there,
      linked_mono db.facts (refresh row.fact_id (row ∷ db.dissents) db.facts) db.dissents
          (λ k h. any-refresh k row.fact_id (row ∷ db.dissents) db.facts ∙ h) v.linked,
    );
    settled = (state, v.settled);
  }

  resubmitted-Consistent :
      (row : DissentRow P) (db : Db P) → Consistent db → Consistent (resubmitted row db)
  unfolding pending_count
  resubmitted-Consistent row db v =
      let rows = pending_is row.fact_id row.payload_hash in
      let g = again row.last_seen_at in
      record {
        counted =
            All-mono (Right db.dissents) (Right (update_where rows g db.dissents)) db.facts
              (λ f r.
                r ∙ sym (sum-update (λ d. one (pending_of f.id d)) rows g db.dissents (λ x. refl)))
              v.counted;
        single = λ fact hash.
            let same =
              sum-update (λ d. one (pending_is fact hash d)) rows g db.dissents (λ x. refl) in
            omega (arith, same, v.single fact hash);
        linked =
            All-update (λ d. any (fact_is d.fact_id) db.facts ≡ true) rows g db.dissents (λ x h. h)
              v.linked;
        settled =
            All-update (λ d. is_some d.resolved_at ≡ not (is_pending d.status)) rows g db.dissents
              (λ x h. h) v.settled;
      }

  -- A dissent that is filed as pending from a fact that is there.
  pub file_dissent-Consistent :
      (row : DissentRow P) (db : Db P)
      → any (fact_is row.fact_id) db.facts ≡ true
      → is_some row.resolved_at ≡ not (is_pending row.status)
      → Consistent db
      → Consistent (after db (file_dissent row db))
  unfolding file_dissent
  file_dissent-Consistent row db there state v =
      elim (Option-cases (find_by (pending_is row.fact_id row.payload_hash) db.dissents)) [
        | inl e ↦
            let fresh = find_by-none (pending_is row.fact_id row.payload_hash) db.dissents e in
            rw e (
              after-if Consistent db (inserted row db) backend (row.id, row.submission_count)
                (any (dissent_is row.id) db.dissents || not (author_known row.author_id db.authors))
                v (inserted-Consistent row db fresh there state v))
        | inr (d, e) ↦ rw e (
            after-if Consistent db (resubmitted row db) backend (d.id, suc d.submission_count)
              (d.submission_count == i32_max) v (resubmitted-Consistent row db v))
      ]
