-- ===== src/Facts/Calls.antt =====
-- Every sequence of the store's writes keeps the bookkeeping of dissents up.
use klams.Common.{
  ℕ, ◌≡◌, refl, ap, inl, inr, Bool, true, not, Option, none, some, List, [], ◌∷◌, arith, ◌==◌,
  ==_iff, ◌||◌, ◌&&◌, any, ltb, Text, Bool-cases, Option-cases, ok, err,
}
use klams.Decay.{FactType}
use klams.Facts.{
  Source, trust_rank, promoted, discarded, backend, FactRow, DissentRow, Db, Written, after,
  find_by, fact_is, fact_key_is, find_fact, find_dissent, is_pending, i32_max, breaks_key,
  dissent_is, update_where,
}
use klams.Facts.Rows.{after-if, after-dissented, after-persisted}
use klams.Facts.Counts.{Consistent, facts_update-Consistent, file_dissent-Consistent}
use klams.Facts.Settled.{resolve-Consistent, new-Consistent}
use klams.Facts.Write.{
  UpsertFact, persisted, upsert_fact_v2, upsert_target, target, soft_delete_fact, restore_fact,
  live_is, deleted_is, deleted, undeleted, file_dissent, diverted, amend, amended, insert_fact,
  new_fact, mismatch, touched,
}
use klams.Facts.Dissents.{
  propose_dissent, proposal, deduped, promote_dissent, mark_promoted, discard_dissent, open_is,
}

-- The writes, each with the time, and with the id that is fresh where one is made.
pub data Call (P : Type 0) : Type 0 where
  upsert : (now fresh : ℕ) → UpsertFact P → Call P
  propose : (now fresh fact : ℕ) → P → (author : ℕ) → Text → Option ℕ → Call P
  promote : (now i : ℕ) → Source → (expected_version : ℕ) → Call P
  discard : (now i : ℕ) → Source → Call P
  soft_delete : (now i by : ℕ) → Call P
  restore : ℕ → Call P

module _ {P : Type 0} (hash : FactType → P → Text) where
  pub step : Db P → Call P → Db P
  step db (upsert now fresh req) = after db (upsert_fact_v2 hash now fresh req db)
  step db (propose now fresh fact payload author reason against) =
      after db (propose_dissent hash now fresh fact payload author reason against db)
  step db (promote now i source ev) = after db (promote_dissent now i source ev db)
  step db (discard now i source) = after db (discard_dissent now i source db)
  step db (soft_delete now i by) = after db (soft_delete_fact now i by db)
  step db (restore i) = after db (restore_fact i db)

  pub run : Db P → List (Call P) → Db P
  unfolding step
  run db [] = db
  run db (c ∷ cs) = run (step db c) cs

found_there :
    {P : Type 0} (p : FactRow P → Bool) (facts : List (FactRow P)) (f : FactRow P)
    → find_by p facts ≡ some f
    → any (fact_is f.id) facts ≡ true
unfolding find_by
found_there p [] f h = cc
found_there p (g ∷ facts) f h = elim (Bool-cases (p g)) [
  | inl e ↦
      let s : some g ≡ some f = rw e at h in
      let q : g ≡ f = cc in
      let same : (g.id == f.id) ≡ true = (==_iff g.id f.id).1 (ap (λ (x : FactRow _). x.id) q) in
      rw same
  | inr e ↦ let rest = found_there p facts f (rw e at h) in ground (arith, rest)
]

module _ {P : Type 0} (db : Db P) (v : Consistent db) where
  amend-Consistent :
      (now : ℕ) (payload : P) (digest : Text) (source : Source) (t : FactRow P)
      → Consistent (after db (amend now payload digest source t db))
  unfolding amend
  amend-Consistent now payload digest source t =
      let g = amended now payload digest source in
      after-if Consistent db (record db { facts = update_where (fact_is t.id) g db.facts }) backend
        (g t) (breaks_key t digest db || t.version == i32_max) v
        (facts_update-Consistent (fact_is t.id) g db (λ x. refl) (λ x. refl) v)

  soft_delete_fact-Consistent :
      (now i by : ℕ) → Consistent (after db (soft_delete_fact now i by db))
  unfolding soft_delete_fact
  soft_delete_fact-Consistent now i by =
      after-if Consistent db
        (record db { facts = update_where (live_is i) (deleted now by) db.facts }) backend
        (any (live_is i) db.facts) (any (live_is i) db.facts && not (any (λ a. a == by) db.authors))
        v (facts_update-Consistent (live_is i) (deleted now by) db (λ x. refl) (λ x. refl) v)

  restore_fact-Consistent : (i : ℕ) → Consistent (after db (restore_fact i db))
  unfolding restore_fact
  restore_fact-Consistent i =
      facts_update-Consistent (deleted_is i) undeleted db (λ x. refl) (λ x. refl) v

  discard_dissent-Consistent :
      (now i : ℕ) (source : Source) → Consistent (after db (discard_dissent now i source db))
  unfolding discard_dissent
  discard_dissent-Consistent now i source = elim (Option-cases (find_by (open_is i) db.dissents)) [
    | inl e ↦ rw e v
    | inr (d, e) ↦ rw e (resolve-Consistent (open_is i) now discarded source db refl v)
  ]

  promote_dissent-Consistent :
      (now i : ℕ) (source : Source) (ev : ℕ)
      → Consistent (after db (promote_dissent now i source ev db))
  unfolding promote_dissent
  promote_dissent-Consistent now i source ev = elim (Option-cases (find_dissent i db)) [
    | inl e ↦ rw e v
    | inr (d, e) ↦ elim (Bool-cases (is_pending d.status)) [
      | inr s ↦ rw (e, s) v
      | inl s ↦ elim (Option-cases (find_fact d.fact_id db)) [
        | inl n ↦ rw (e, s, n) v
        | inr (f, n) ↦ elim (Bool-cases (f.version == ev)) [
          | inr m ↦ rw (e, s, n, m) v
          | inl m ↦
              rw (e, s, n, m)
                (finish d (amend now d.proposed_payload d.payload_hash source f db)
                  (amend-Consistent now d.proposed_payload d.payload_hash source f))
        ]
      ]
    ]
  ]
    where
      finish :
          (d : DissentRow P) (w : Written P (FactRow P))
          → Consistent (after db w)
          → Consistent (after db (mark_promoted now source d w))
      finish d (ok (g, db')) c = resolve-Consistent (dissent_is d.id) now promoted source db' refl c
      finish d (err e) c = c

  module _ (hash : FactType → P → Text) (now fresh : ℕ) where
    propose_dissent-Consistent :
        (fact : ℕ) (payload : P) (author : ℕ) (reason : Text) (against : Option ℕ)
        → Consistent
            (after db (propose_dissent hash now fresh fact payload author reason against db))
    unfolding propose_dissent
    propose_dissent-Consistent fact payload author reason against =
        elim (Option-cases (find_by (live_is fact) db.facts)) [
          | inl e ↦ rw e v
          | inr (f, e) ↦
              let row = proposal hash now fresh f payload author reason against in
              rw e (
                told (file_dissent row db) (
                  unfold proposal in
                  file_dissent-Consistent row db (found_there (live_is fact) db.facts f e) refl v))
        ]
      where
        told :
            (w : Written P (ℕ × ℕ))
            → Consistent (after db w)
            → Consistent (after db (deduped hash w))
        told (ok (d, db')) c = c
        told (err e) c = c

    insert_fact-Consistent :
        (req : UpsertFact P) → Consistent (after db (insert_fact hash now fresh req db))
    unfolding insert_fact new_fact
    insert_fact-Consistent req =
        let n = new_fact hash now fresh req in
        elim (Bool-cases (any (fact_is n.id) db.facts)) [
          | inl e ↦ rw e v
          | inr e ↦
              let others =
                any (fact_key_is n.fact_type n.payload_hash) db.facts
                || not (any (λ a. a == n.author_id) db.authors) in
              rw e (
                after-if Consistent db (record db { facts = n ∷ db.facts }) backend (persisted n)
                  others v (new-Consistent n db refl e v))
        ]

    upsert_target-Consistent :
        (req : UpsertFact P) (named : Option (FactRow P))
        → ((t : FactRow P) → named ≡ some t → any (fact_is t.id) db.facts ≡ true)
        → Consistent (after db (upsert_target hash now fresh req db named))
    upsert_target-Consistent req none k = insert_fact-Consistent req
    upsert_target-Consistent req (some t) k =
        elim (Bool-cases (ltb (trust_rank req.source) (trust_rank t.source))) [
          | inl e ↦
              let row = diverted hash now fresh req t.id in
              rw (e, after-dissented db t.id (file_dissent row db))
                (unfold diverted in file_dissent-Consistent row db (k t refl) refl v)
          | inr e ↦ elim (Bool-cases (mismatch req.expected_version t.version)) [
            | inl m ↦ rw (e, m) v
            | inr m ↦
                let digest = hash req.fact_type req.payload in
                rw (e, m, after-persisted db (amend now req.payload digest req.source t db))
                  (amend-Consistent now req.payload digest req.source t)
          ]
        ]

    target_there :
        (req : UpsertFact P) (named : Option ℕ) (t : FactRow P)
        → target req db named ≡ some t
        → any (fact_is t.id) db.facts ≡ true
    unfolding find_fact
    target_there req none t h = cc
    target_there req (some i) t h = found_there (fact_is i) db.facts t h

    upsert_fact_v2-Consistent :
        (req : UpsertFact P) → Consistent (after db (upsert_fact_v2 hash now fresh req db))
    unfolding upsert_fact_v2
    upsert_fact_v2-Consistent req =
        elim (Option-cases
          (find_by (fact_key_is req.fact_type (hash req.fact_type req.payload)) db.facts)) [
            | inl e ↦ rw e (
                upsert_target-Consistent req (target req db req.explicit_id)
                  (target_there req req.explicit_id))
            | inr (t, e) ↦ elim (Bool-cases (mismatch req.expected_version t.version)) [
              | inl m ↦ rw (e, m) v
              | inr m ↦
                  rw (e, m)
                    (facts_update-Consistent (fact_is t.id) (touched now) db (λ x. refl) (λ x. refl)
                      v)
            ]
          ]

module _ {P : Type 0} (hash : FactType → P → Text) where
  step-Consistent : (db : Db P) (c : Call P) → Consistent db → Consistent (step hash db c)
  unfolding step
  step-Consistent db (upsert now fresh req) v = upsert_fact_v2-Consistent db v hash now fresh req
  step-Consistent db (propose now fresh fact payload author reason against) v =
      propose_dissent-Consistent db v hash now fresh fact payload author reason against
  step-Consistent db (promote now i source ev) v = promote_dissent-Consistent db v now i source ev
  step-Consistent db (discard now i source) v = discard_dissent-Consistent db v now i source
  step-Consistent db (soft_delete now i by) v = soft_delete_fact-Consistent db v now i by
  step-Consistent db (restore i) v = restore_fact-Consistent db v i

  -- After any sequence of writes to tables that are consistent: the column `dissent_count` of every
  -- fact is the number of its pending dissents, a fact and a payload hash have at most one pending
  -- dissent, every dissent is from a fact that is there, and a dissent has a time of resolution if
  -- and only if it is not pending.
  pub run-Consistent :
      (cs : List (Call P)) (db : Db P) → Consistent db → Consistent (run hash db cs)
  unfolding run
  run-Consistent [] db v = v
  run-Consistent (c ∷ cs) db v = run-Consistent cs (step hash db c) (step-Consistent db c v)
