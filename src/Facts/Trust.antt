-- ===== src/Facts/Trust.antt =====
-- A fact is never overwritten by a write of a source that is trusted less.
use klams.Common.{
  ℕ, suc, ◌≡◌, refl, ap, ◌∙◌, sym, inl, inr, Bool, true, false, not, Option, none, some, List, ◌∷◌,
  arith, ◌==◌, ==_iff, ◌||◌, ltb, any, Text, Bool-cases, Option-cases, ◌≤◌,
}
use klams.Decay.{FactType}
use klams.Facts.{
  trust_rank, FactRow, DissentRow, Db, after, find_by, update_where, fact_is, find_fact, refresh,
  pending_is, fact_key_is, breaks_key, backend, i32_max, pending_count,
}
use klams.Facts.Rows.{
  after-if, changed, mapped, find_fact-update, find_fact-id, find_by-any, after-dissented,
  after-persisted,
}
use klams.Facts.Write.{
  UpsertFact, persisted, upsert_fact_v2, upsert_target, target, touch, touched, file_dissent, amend,
  inserted, resubmitted, amended, author_known, insert_fact, new_fact, diverted, mismatch,
}

-- The content of a fact, its source and its version.
pub record SameContent {P : Type 0} (f g : FactRow P) : Type 0 where
  pub type_eq : g.fact_type ≡ f.fact_type
  pub payload_eq : g.payload ≡ f.payload
  pub hash_eq : g.payload_hash ≡ f.payload_hash
  pub version_eq : g.version ≡ f.version
  pub source_eq : g.source ≡ f.source
  pub author_eq : g.author_id ≡ f.author_id
  pub deleted_eq : g.deleted_at ≡ f.deleted_at

pub content_eq :
    {P : Type 0} (f g : FactRow P)
    → g.fact_type ≡ f.fact_type
    → g.payload ≡ f.payload
    → g.payload_hash ≡ f.payload_hash
    → g.version ≡ f.version
    → g.source ≡ f.source
    → g.author_id ≡ f.author_id
    → g.deleted_at ≡ f.deleted_at
    → SameContent f g
content_eq f g a b c d e k l = record {
  type_eq = a;
  payload_eq = b;
  hash_eq = c;
  version_eq = d;
  source_eq = e;
  author_eq = k;
  deleted_eq = l;
}

pub SameContent-trans :
    {P : Type 0} (f g k : FactRow P) → SameContent f g → SameContent g k → SameContent f k
SameContent-trans f g k s t =
    content_eq f k (t.type_eq ∙ s.type_eq) (t.payload_eq ∙ s.payload_eq) (t.hash_eq ∙ s.hash_eq)
      (t.version_eq ∙ s.version_eq) (t.source_eq ∙ s.source_eq) (t.author_eq ∙ s.author_eq)
      (t.deleted_eq ∙ s.deleted_eq)

-- What a write may do to the fact `f` with the id `i`: nothing, or an amendment that it asks for
-- from a source that is trusted at least as much, one version on.
pub data Allowed {P : Type 0} (req : UpsertFact P) (i : ℕ) (f g : FactRow P) : Type 0 where
  kept : SameContent f g → Allowed req i f g
  replaced :
      req.explicit_id ≡ some i
      → trust_rank f.source ≤ trust_rank req.source
      → g.payload ≡ req.payload
      → g.source ≡ req.source
      → g.version ≡ suc f.version
      → Allowed req i f g

module _ {P : Type 0} (i : ℕ) (f : FactRow P) where
  -- The fact is there, as `R` says.
  abbrev pub Still : (FactRow P → Type 0) → Db P → Type 0
  Still R db = (g : FactRow P) × (find_fact i db ≡ some g) × R g

  SameContent-refl : SameContent f f
  SameContent-refl = content_eq f f refl refl refl refl refl refl refl

  Still-refl : (db : Db P) → find_fact i db ≡ some f → Still (SameContent f) db
  Still-refl db h = (f, h, SameContent-refl)

  -- An update keeps the fact, where it keeps what it is applied to.
  Still-update :
      (q : FactRow P → Bool) (g : FactRow P → FactRow P) (db : Db P) (ds : List (DissentRow P))
      → ((x : FactRow P) → (g x).id ≡ x.id)
      → SameContent f (g f)
      → find_fact i db ≡ some f
      → Still
          (SameContent f)
          (record { facts = update_where q g db.facts; dissents = ds; authors = db.authors })
  unfolding find_fact
  Still-update q g db ds k s h = (
    changed q g f,
    find_fact-update i q g db.facts k ∙ ap (mapped (changed q g)) h,
    elim (Bool-cases (q f)) [ inl e ↦ rw e s | inr e ↦ rw e SameContent-refl ],
  )

  file_dissent-Still :
      (row : DissentRow P) (db : Db P)
      → find_fact i db ≡ some f
      → Still (SameContent f) (after db (file_dissent row db))
  unfolding file_dissent refresh find_fact
  file_dissent-Still row db h =
      elim (Option-cases (find_by (pending_is row.fact_id row.payload_hash) db.dissents)) [
        | inl e ↦
            let count : FactRow P → FactRow P =
              λ x. record x { dissent_count = pending_count row.fact_id (row ∷ db.dissents) } in
            let same : SameContent f (count f) =
              content_eq f (count f) refl refl refl refl refl refl refl in
            rw e (
              after-if (Still (SameContent f)) db (inserted row db) backend
                (row.id, row.submission_count)
                (any (λ d. d.id == row.id) db.dissents
                  || not (author_known row.author_id db.authors))
                (Still-refl db h)
                (Still-update (fact_is row.fact_id) count db (row ∷ db.dissents) (λ x. refl) same
                  h))
        | inr (d, e) ↦ rw e (
            after-if (Still (SameContent f)) db (resubmitted row db) backend
              (d.id, suc d.submission_count) (d.submission_count == i32_max) (Still-refl db h)
              (f, h, SameContent-refl))
      ]

  insert_fact-Still :
      (hash : FactType → P → Text) (now fresh : ℕ) (req : UpsertFact P) (db : Db P)
      → find_fact i db ≡ some f
      → Still (SameContent f) (after db (insert_fact hash now fresh req db))
  unfolding insert_fact find_fact find_by
  insert_fact-Still hash now fresh req db h =
      let n = new_fact hash now fresh req in
      let there : any (fact_is i) db.facts ≡ true = find_by-any (fact_is i) db.facts f h in
      let others =
        any (fact_key_is n.fact_type n.payload_hash) db.facts
        || not (any (λ a. a == n.author_id) db.authors) in
      elim (Bool-cases (any (fact_is n.id) db.facts)) [
        | inl e ↦ rw e (Still-refl db h)
        | inr e ↦
            let apart : (n.id == i) ≡ false = elim (Bool-cases (n.id == i)) [
              | inl q ↦ let same = ap (λ k. any (fact_is k) db.facts) ((==_iff n.id i).0 q) in cc
              | inr q ↦ q
            ] in
            let found : find_by (fact_is i) (n ∷ db.facts) ≡ some f = rw apart h in
            let kept_there : Still (SameContent f) (record db { facts = n ∷ db.facts }) =
              (f, found, SameContent-refl) in
            rw e (
              after-if (Still (SameContent f)) db (record db { facts = n ∷ db.facts }) backend
                (persisted n) others (Still-refl db h) kept_there)
      ]

  -- The fact that a request names, if a row with its hash is not there.
  amend-Allowed :
      (now k : ℕ) (hash : Text) (req : UpsertFact P) (db : Db P) (t : FactRow P)
      → req.explicit_id ≡ some k
      → find_fact k db ≡ some t
      → ltb (trust_rank req.source) (trust_rank t.source) ≡ false
      → find_fact i db ≡ some f
      → Still (Allowed req i f) (after db (amend now req.payload hash req.source t db))
  unfolding amend find_fact
  amend-Allowed now k hash req db t ek tk tr h =
      let g = amended now req.payload hash req.source in
      let more : Db P = record db { facts = update_where (fact_is t.id) g db.facts } in
      let found : find_fact i more ≡ some (changed (fact_is t.id) g f) =
        find_fact-update i (fact_is t.id) g db.facts (λ x. refl)
        ∙ ap (mapped (changed (fact_is t.id) g)) h in
      let t_id : t.id ≡ k = find_fact-id k db t tk in
      let f_id : f.id ≡ i = find_fact-id i db f h in
      let written : Still (Allowed req i f) more = elim (Bool-cases (f.id == t.id)) [
        | inl e ↦
            let same : k ≡ i = sym t_id ∙ sym ((==_iff f.id t.id).0 e) ∙ f_id in
            let row : some t ≡ some f = sym tk ∙ ap (λ n. find_fact n db) same ∙ h in
            let t_f : t ≡ f = cc in
            let trusted : ltb (trust_rank req.source) (trust_rank f.source) ≡ false =
              sym (ap (λ (x : FactRow P). ltb (trust_rank req.source) (trust_rank x.source)) t_f)
              ∙ tr in
            (
              g f,
              rw e at found,
              replaced (ek ∙ ap some same) (ground (arith, trusted)) refl refl refl,
            )
        | inr e ↦ (f, rw e at found, kept SameContent-refl)
      ] in
      after-if (Still (Allowed req i f)) db more backend (g t)
        (breaks_key t hash db || t.version == i32_max) (f, h, kept SameContent-refl) written

  Still-kept :
      (req : UpsertFact P) (db : Db P) → Still (SameContent f) db → Still (Allowed req i f) db
  Still-kept req db (g, h, s) = (g, h, kept s)

module _ {P : Type 0} (hash : FactType → P → Text) (now fresh : ℕ) (req : UpsertFact P)
    (db : Db P) where
  upsert_target-Allowed :
      (i : ℕ) (f t : FactRow P) (k : ℕ)
      → req.explicit_id ≡ some k
      → find_fact k db ≡ some t
      → find_fact i db ≡ some f
      → Still i f (Allowed req i f) (after db (upsert_target hash now fresh req db (some t)))
  upsert_target-Allowed i f t k ek tk h =
      elim (Bool-cases (ltb (trust_rank req.source) (trust_rank t.source))) [
        | inl e ↦
            let row = diverted hash now fresh req t.id in
            rw (e, after-dissented db t.id (file_dissent row db))
              (Still-kept i f req _ (file_dissent-Still i f row db h))
        | inr e ↦ elim (Bool-cases (mismatch req.expected_version t.version)) [
          | inl m ↦ rw (e, m) (f, h, kept (SameContent-refl i f))
          | inr m ↦
              let digest = hash req.fact_type req.payload in
              rw (e, m, after-persisted db (amend now req.payload digest req.source t db))
                (amend-Allowed i f now k digest req db t ek tk e h)
        ]
      ]

  upsert_named-Allowed :
      (i : ℕ) (f : FactRow P) (named : Option ℕ)
      → req.explicit_id ≡ named
      → find_fact i db ≡ some f
      → Still i f
          (Allowed req i f)
          (after db (upsert_target hash now fresh req db (target req db named)))
  upsert_named-Allowed i f none e h =
      Still-kept i f req _ (insert_fact-Still i f hash now fresh req db h)
  upsert_named-Allowed i f (some k) e h = elim (Option-cases (find_fact k db)) [
    | inl m ↦ rw m (Still-kept i f req _ (insert_fact-Still i f hash now fresh req db h))
    | inr (t, m) ↦ rw m (upsert_target-Allowed i f t k e m h)
  ]

  -- Whatever the write and whatever its outcome, every fact that is there stays there, with its
  -- content, source and version, unless the write names the fact's id from a source that is trusted
  -- at least as much; then the fact may have the payload and source of the write, one version on.
  pub upsert_fact_v2-trust :
      (i : ℕ) (f : FactRow P)
      → find_fact i db ≡ some f
      → Still i f (Allowed req i f) (after db (upsert_fact_v2 hash now fresh req db))
  unfolding upsert_fact_v2
  upsert_fact_v2-trust i f h =
      elim (Option-cases
        (find_by (fact_key_is req.fact_type (hash req.fact_type req.payload)) db.facts)) [
          | inl e ↦ rw e (upsert_named-Allowed i f req.explicit_id refl h)
          | inr (t, e) ↦ elim (Bool-cases (mismatch req.expected_version t.version)) [
            | inl m ↦ rw (e, m) (f, h, kept (SameContent-refl i f))
            | inr m ↦
                let same : SameContent f (touched now f) =
                  content_eq f (touched now f) refl refl refl refl refl refl refl in
                rw (e, m)
                  (Still-kept i f req (touch now t db) (
                    Still-update i f (fact_is t.id) (touched now) db db.dissents (λ x. refl) same
                      h))
          ]
        ]
