-- ===== src/Facts/Hashes.antt =====
-- The hash of a fact's row is the hash of its type and payload, where writes name the fact's own type.
use klams.Common.{
  ℕ, suc, ◌≡◌, refl, ap, subst, sym, inl, inr, not, Option, none, some, List, [], ◌∷◌, ◌==◌, ==_iff,
  ◌||◌, any, All, ltb, Text, Bool-cases, Option-cases,
}
use klams.Decay.{FactType}
use klams.Facts.{
  backend, trust_rank, FactRow, DissentRow, Db, after, find_by, find_fact, fact_is, fact_key_is,
  breaks_key, i32_max, update_where, refresh, pending_is, pending_count, dissent_is,
}
use klams.Facts.Rows.{after-dissented, after-persisted, after-if, find_fact-id}
use klams.Facts.Updates.{All-update}
use klams.Facts.Write.{
  UpsertFact, persisted, touched, upsert_fact_v2, upsert_target, target, file_dissent, inserted,
  resubmitted, diverted, amend, amended, insert_fact, new_fact, mismatch, author_known,
}

module _ {P : Type 0} (hash : FactType → P → Text) where
  abbrev pub Hashed : FactRow P → Type 0
  Hashed f = f.payload_hash ≡ hash f.fact_type f.payload

  -- The fact with the id, if it is there, has the type.
  abbrev pub TypeAgrees : FactType → Option ℕ → FactRow P → Type 0
  TypeAgrees t none f = Unit
  TypeAgrees t (some i) f = f.id ≡ i → f.fact_type ≡ t

  module _ (now fresh : ℕ) (req : UpsertFact P) (db : Db P) (h : All Hashed db.facts) where
    file_dissent-Hashed : (row : DissentRow P) → All Hashed (after db (file_dissent row db)).facts
    unfolding file_dissent refresh
    file_dissent-Hashed row =
        elim (Option-cases (find_by (pending_is row.fact_id row.payload_hash) db.dissents)) [
          | inl e ↦ rw e (
              after-if (λ d. All Hashed d.facts) db (inserted row db) backend
                (row.id, row.submission_count)
                (any (dissent_is row.id) db.dissents || not (author_known row.author_id db.authors))
                h
                (All-update Hashed (fact_is row.fact_id)
                  (λ (f : FactRow P). record f {
                    dissent_count = pending_count row.fact_id (row ∷ db.dissents);
                  })
                  db.facts (λ f k. k) h))
          | inr (d, e) ↦ rw e (
              after-if (λ d. All Hashed d.facts) db (resubmitted row db) backend
                (d.id, suc d.submission_count) (d.submission_count == i32_max) h h)
        ]

    insert_fact-Hashed : All Hashed (after db (insert_fact hash now fresh req db)).facts
    unfolding insert_fact new_fact
    insert_fact-Hashed =
        let n = new_fact hash now fresh req in
        after-if (λ d. All Hashed d.facts) db (record db { facts = n ∷ db.facts }) backend
          (persisted n)
          (any (fact_is n.id) db.facts
            || (any (fact_key_is n.fact_type n.payload_hash) db.facts
                || not (any (λ a. a == n.author_id) db.authors)))
          h (refl, h)

    -- The rows that an amendment changes have the type that its hash is of.
    All-amended :
        (i : ℕ) (facts : List (FactRow P))
        → All Hashed facts
        → All (TypeAgrees req.fact_type (some i)) facts
        → All Hashed (
            update_where
              (fact_is i)
              (amended now req.payload (hash req.fact_type req.payload) req.source)
              facts)
    unfolding update_where
    All-amended i [] a t = tt
    All-amended i (f ∷ facts) a t = (
      elim (Bool-cases (f.id == i)) [
        | inl e ↦ rw e (ap (λ y. hash y req.payload) (sym (t.0 ((==_iff f.id i).0 e))))
        | inr e ↦ rw e a.0
      ],
      All-amended i facts a.1 t.1,
    )

    upsert_target-Hashed :
        (k : ℕ) (t : FactRow P)
        → t.id ≡ k
        → All (TypeAgrees req.fact_type (some k)) db.facts
        → All Hashed (after db (upsert_target hash now fresh req db (some t))).facts
    unfolding amend
    upsert_target-Hashed k t tk a =
        elim (Bool-cases (ltb (trust_rank req.source) (trust_rank t.source))) [
          | inl e ↦
              let row = diverted hash now fresh req t.id in
              rw (e, after-dissented db t.id (file_dissent row db)) (file_dissent-Hashed row)
          | inr e ↦ elim (Bool-cases (mismatch req.expected_version t.version)) [
            | inl m ↦ rw (e, m) h
            | inr m ↦
                let digest = hash req.fact_type req.payload in
                let g = amended now req.payload digest req.source in
                let more : Db P = record db { facts = update_where (fact_is t.id) g db.facts } in
                rw (e, m, after-persisted db (amend now req.payload digest req.source t db))
                  (after-if (λ d. All Hashed d.facts) db more backend (g t)
                    (breaks_key t digest db || t.version == i32_max) h
                    (All-amended t.id db.facts h
                      (subst (λ n. All (TypeAgrees req.fact_type (some n)) db.facts) (sym tk) a)))
          ]
        ]

    upsert_named-Hashed :
        (named : Option ℕ)
        → All (TypeAgrees req.fact_type named) db.facts
        → All Hashed (after db (upsert_target hash now fresh req db (target req db named))).facts
    upsert_named-Hashed none a = insert_fact-Hashed
    upsert_named-Hashed (some k) a = elim (Option-cases (find_fact k db)) [
      | inl m ↦ rw m insert_fact-Hashed
      | inr (t, m) ↦ rw m (upsert_target-Hashed k t (find_fact-id k db t m) a)
    ]

  -- A write keeps the hash of every fact the hash of its type and payload, if a fact that it names by
  -- id has the type of the request.
  pub upsert_fact_v2-Hashed :
      (now fresh : ℕ) (req : UpsertFact P) (db : Db P)
      → All Hashed db.facts
      → All (TypeAgrees req.fact_type req.explicit_id) db.facts
      → All Hashed (after db (upsert_fact_v2 hash now fresh req db)).facts
  unfolding upsert_fact_v2
  upsert_fact_v2-Hashed now fresh req db h a =
      elim (Option-cases
        (find_by (fact_key_is req.fact_type (hash req.fact_type req.payload)) db.facts)) [
          | inl e ↦ rw e (upsert_named-Hashed now fresh req db h req.explicit_id a)
          | inr (t, e) ↦ elim (Bool-cases (mismatch req.expected_version t.version)) [
            | inl m ↦ rw (e, m) h
            | inr m ↦
                rw (e, m) (All-update Hashed (fact_is t.id) (touched now) db.facts (λ f k. k) h)
          ]
        ]
