-- ===== src/Facts/Filing.antt =====
-- A dissent that is proposed again is not filed again.
use klams.Common.{
  ℕ, suc, ◌≤◌, ◌≡◌, refl, ap, ◌∙◌, sym, inl, inr, Bool, true, false, not, Option, none, some, List,
  [], ◌∷◌, map, arith, lt→ltb, ◌==◌, ==_iff, ◌||◌, any, ltb, Text, text_eq_refl, Bool-cases,
  Option-cases, ok, err,
}
use klams.Decay.{FactType}
use klams.Facts.{
  backend, FactRow, DissentRow, Db, Written, find_by, fact_is, is_pending, i32_max, dissent_is,
  update_where, refresh, pending_is, pending_count,
}
use klams.Facts.Rows.{changed, mapped, find_by-update_where, find_by-holds}
use klams.Facts.Write.{live_is, file_dissent, inserted, resubmitted, again, author_known}
use klams.Facts.Dissents.{propose_dissent, proposal, deduped}

abbrev Filed : Type 0 → Type 0
Filed P = Written P (ℕ × ℕ)

-- How a dissent was filed: as a new row, or as the pending row of its fact and payload again.
data How {P : Type 0} (row : DissentRow P) (db : Db P) (r : ℕ × ℕ) (db' : Db P) : Type 0 where
  first : r ≡ (row.id, row.submission_count) → db' ≡ inserted row db → How row db r db'
  more :
      (d : DissentRow P)
      → find_by (pending_is row.fact_id row.payload_hash) db.dissents ≡ some d
      → r ≡ (d.id, suc d.submission_count)
      → db' ≡ resubmitted row db
      → How row db r db'

module _ {P : Type 0} where
  file_dissent-How :
      (row : DissentRow P) (db db' : Db P) (r : ℕ × ℕ)
      → file_dissent row db ≡ ok (r, db')
      → How row db r db'
  unfolding file_dissent
  file_dissent-How row db db' r h =
      elim (Option-cases (find_by (pending_is row.fact_id row.payload_hash) db.dissents)) [
        | inl e ↦
            elim (Bool-cases (
              any (dissent_is row.id) db.dissents || not (author_known row.author_id db.authors))) [
                | inl b ↦
                    let w : ◌≡◌ {A = Filed P} (err backend) (ok (r, db')) = rw (e, b) at h in cc
                | inr b ↦
                    let w : ◌≡◌ {A = Filed P} (ok ((row.id, row.submission_count), inserted row db))
                        (ok (r, db')) =
                      rw (e, b) at h in
                    first (cc) (cc)
              ]
        | inr (d, e) ↦ elim (Bool-cases (d.submission_count == i32_max)) [
          | inl b ↦ let w : ◌≡◌ {A = Filed P} (err backend) (ok (r, db')) = rw (e, b) at h in cc
          | inr b ↦
              let w : ◌≡◌ {A = Filed P} (ok ((d.id, suc d.submission_count), resubmitted row db))
                  (ok (r, db')) =
                rw (e, b) at h in
              more d e (cc) (cc)
        ]
      ]

  -- The pending row of the fact and the payload, with the id and the count.
  abbrev AtRow : (fact : ℕ) → Text → ℕ × ℕ → Db P → Type 0
  AtRow fact hash r db =
      (d : DissentRow P) × (find_by (pending_is fact hash) db.dissents ≡ some d)
      × (◌≡◌ {A = ℕ × ℕ} (d.id, d.submission_count) r)

  -- A row that is filed is there, pending.
  How-AtRow :
      (row : DissentRow P) (db db' : Db P) (r : ℕ × ℕ)
      → is_pending row.status ≡ true
      → How row db r db'
      → AtRow row.fact_id row.payload_hash r db'
  unfolding find_by
  How-AtRow row db db' r s (first r_eq d_eq) =
      let p = pending_is row.fact_id row.payload_hash in
      let self : (row.fact_id == row.fact_id) ≡ true = (==_iff row.fact_id row.fact_id).1 refl in
      let found : find_by p (row ∷ db.dissents) ≡ some row =
        rw (s, self, text_eq_refl row.payload_hash) in
      (row, ap (λ (x : Db P). find_by p x.dissents) d_eq ∙ found, sym r_eq)
  How-AtRow row db db' r s (more d e r_eq d_eq) =
      let p = pending_is row.fact_id row.payload_hash in
      let g = again row.last_seen_at in
      let holds : p d ≡ true = find_by-holds p db.dissents d e in
      let found : find_by p (update_where p g db.dissents) ≡ some (g d) =
        find_by-update_where p p g db.dissents (λ x. refl)
        ∙ ap (mapped (changed p g)) e
        ∙ (rw holds) in
      (g d, ap (λ (x : Db P). find_by p x.dissents) d_eq ∙ found, sym r_eq)

  How-positive :
      (row : DissentRow P) (db db' : Db P) (r : ℕ × ℕ)
      → row.submission_count ≡ 1
      → How row db r db'
      → 1 ≤ r.1
  How-positive row db db' r one (first r_eq d_eq) =
      let q : r.1 ≡ row.submission_count = ap (λ (x : ℕ × ℕ). x.1) r_eq in omega (arith, q, one)
  How-positive row db db' r one (more d e r_eq d_eq) =
      let q : r.1 ≡ suc d.submission_count = ap (λ (x : ℕ × ℕ). x.1) r_eq in omega (arith, q)

  ids_lem :
      (q : DissentRow P → Bool) (g : DissentRow P → DissentRow P) (ds : List (DissentRow P))
      → ((d : DissentRow P) → (g d).id ≡ d.id)
      → map (λ (d : DissentRow P). d.id) (update_where q g ds) ≡ map (λ (d : DissentRow P). d.id) ds
  unfolding update_where
  ids_lem q g [] k = refl
  ids_lem q g (d ∷ ds) k = elim (Bool-cases (q d)) [
    | inl e ↦ rw (e, k d, ids_lem q g ds k)
    | inr e ↦ rw (e, ids_lem q g ds k)
  ]

  -- A row of the same fact and payload counts the row that is there up.
  filed_again :
      (row : DissentRow P) (db : Db P) (r : ℕ × ℕ)
      → AtRow row.fact_id row.payload_hash r db
      → (r.1 == i32_max) ≡ false
      → file_dissent row db ≡ ok ((r.0, suc r.1), resubmitted row db)
  unfolding file_dissent
  filed_again row db r (d, e, q) m =
      let i : d.id ≡ r.0 = ap (λ (x : ℕ × ℕ). x.0) q in
      let c : d.submission_count ≡ r.1 = ap (λ (x : ℕ × ℕ). x.1) q in
      let m' : (d.submission_count == i32_max) ≡ false = rw c m in rw (e, m', i, c)

  -- The fact's row, after a dissent from it is filed.
  How-live :
      (row : DissentRow P) (fact : ℕ) (f : FactRow P) (db db' : Db P) (r : ℕ × ℕ)
      → find_by (live_is fact) db.facts ≡ some f
      → How row db r db'
      → (g : FactRow P) × (find_by (live_is fact) db'.facts ≡ some g)
        × (g.id ≡ f.id)
        × (g.fact_type ≡ f.fact_type)
  unfolding refresh
  How-live row fact f db db' r h (first r_eq d_eq) =
      let ds = row ∷ db.dissents in
      let g : FactRow P → FactRow P =
        λ x. record x { dissent_count = pending_count row.fact_id ds } in
      let found : find_by (live_is fact) (refresh row.fact_id ds db.facts)
          ≡ some (changed (fact_is row.fact_id) g f) =
        find_by-update_where (live_is fact) (fact_is row.fact_id) g db.facts (λ x. refl)
        ∙ ap (mapped (changed (fact_is row.fact_id) g)) h in
      let there = ap (λ (x : Db P). find_by (live_is fact) x.facts) d_eq ∙ found in
      elim (Bool-cases (f.id == row.fact_id)) [
        | inl e ↦ (g f, rw e at there, refl, refl)
        | inr e ↦ (f, rw e at there, refl, refl)
      ]
  How-live row fact f db db' r h (more d e r_eq d_eq) =
      (f, ap (λ (x : Db P). find_by (live_is fact) x.facts) d_eq ∙ h, refl, refl)

below : (n : ℕ) → ltb 1 n ≡ false → (n == i32_max) ≡ false
below n h = elim (Bool-cases (n == i32_max)) [
  | inl e ↦ let q : ltb 1 i32_max ≡ false = ap (ltb 1) (sym ((==_iff n i32_max).0 e)) ∙ h in cc
  | inr e ↦ e
]

module _ {P : Type 0} (hash : FactType → P → Text) (fact : ℕ) (payload : P) where
  deduped-inv :
      (w : Filed P) (i : ℕ) (db' : Db P)
      → deduped hash w ≡ ok (some (i, false), db')
      → (n : ℕ) × (w ≡ ok ((i, n), db')) × (ltb 1 n ≡ false)
  deduped-inv (ok ((j, n), db)) i db' h =
      let a : j ≡ i = cc in let b : ltb 1 n ≡ false = cc in let c : db ≡ db' = cc in (n, cc, b)
  deduped-inv (err e) i db' h = cc

  -- A payload that is proposed for a fact again, by whomever and for whatever reason, is told the id
  -- of the dissent that is there, and counts it up and marks it as seen; no row is added.
  pub propose_dissent_twice :
      (now fresh author : ℕ) (reason : Text) (against : Option ℕ) (db db' : Db P) (i : ℕ)
      (now' fresh' author' : ℕ) (reason' : Text) (against' : Option ℕ)
      → propose_dissent hash now fresh fact payload author reason against db
        ≡ ok (some (i, false), db')
      → (db'' : Db P) × (propose_dissent hash now' fresh' fact payload author' reason' against' db'
          ≡ ok (some (i, true), db''))
        × (map (λ (d : DissentRow P). d.id) db''.dissents
            ≡ map (λ (d : DissentRow P). d.id) db'.dissents)
        × (db''.facts ≡ db'.facts)
  unfolding propose_dissent
  propose_dissent_twice now fresh author reason against db db' i now' fresh' author' reason'
        against' h =
      elim (Option-cases (find_by (live_is fact) db.facts)) [
        | inl e ↦
            let w : ◌≡◌ {A = Written P (Option (ℕ × Bool))} (ok (none, db))
                (ok (some (i, false), db')) =
              rw e at h in
            cc
        | inr (f, e) ↦
            let row = proposal hash now fresh f payload author reason against in
            let (n, made, low) = deduped-inv (file_dissent row db) i db' (rw e at h) in
            let how = file_dissent-How row db db' (i, n) made in
            let (g, live, g_id, g_type) = How-live row fact f db db' (i, n) e how in
            let next = proposal hash now' fresh' g payload author' reason' against' in
            let key : hash g.fact_type payload ≡ hash f.fact_type payload =
              ap (λ t. hash t payload) g_type in
            let there : AtRow next.fact_id next.payload_hash (i, n) db' =
              unfold proposal in rw (g_id, key) (How-AtRow row db db' (i, n) refl how) in
            let some_count : 1 ≤ n = unfold proposal in How-positive row db db' (i, n) refl how in
            let up : ltb 1 (suc n) ≡ true = lt→ltb 1 (suc n) (omega (arith, some_count)) in
            let again_lem = filed_again next db' (i, n) there (below n low) in
            (
              resubmitted next db',
              rw (live, again_lem, up),
              ids_lem (pending_is next.fact_id next.payload_hash) (again next.last_seen_at)
                  db'.dissents (λ x. refl),
              refl,
            )
      ]
