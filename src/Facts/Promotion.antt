-- ===== src/Facts/Promotion.antt =====
-- What a promotion of a dissent does, when it succeeds.
use klams.Common.{
  ℕ, suc, ◌≡◌, refl, ap, subst, ◌∙◌, sym, inl, inr, true, some, arith, ◌==◌, ==_iff, ◌||◌, Text,
  Bool-cases, Option-cases, ok, err,
}
use klams.Facts.{
  Source, promoted, backend, gone, other, version_conflict, FactRow, DissentRow, Db, Written,
  fact_is, find_fact, find_dissent, is_pending, i32_max, breaks_key, dissent_is, update_where,
}
use klams.Facts.Rows.{changed, mapped, find_fact-update, find_by-holds}
use klams.Facts.Trust.{SameContent}
use klams.Facts.Write.{amend, amended}
use klams.Facts.Dissents.{promote_dissent, mark_promoted, resolve, resolved}
use klams.Facts.Pending.{IsClosed, refresh_rows-Same, resolve-IsClosed}

-- What a promotion that succeeds has done.
pub record Promoted {P : Type 0} (i : ℕ) (source : Source) (ev : ℕ) (db : Db P) (g : FactRow P)
    (db' : Db P) : Type 0 where
  pub dissent : DissentRow P
  pub fact : FactRow P
  pub found : find_dissent i db ≡ some dissent
  pub was_pending : is_pending dissent.status ≡ true
  pub from_fact : find_fact dissent.fact_id db ≡ some fact
  pub expected : fact.version ≡ ev
  pub payload_eq : g.payload ≡ dissent.proposed_payload
  pub source_eq : g.source ≡ source
  pub version_eq : g.version ≡ suc ev
  pub row : FactRow P
  pub stored : find_fact dissent.fact_id db' ≡ some row
  pub same : SameContent g row
  pub closed : IsClosed i db'

module _ {P : Type 0} where
  abbrev Done : FactRow P → Db P → Written P (FactRow P)
  Done g db' = ok (g, db')

  amend-inv :
      (now : ℕ) (payload : P) (digest : Text) (source : Source) (t g : FactRow P) (db db' : Db P)
      → amend now payload digest source t db ≡ Done g db'
      → (g ≡ amended now payload digest source t)
        × (db' ≡ record db {
          facts = update_where (fact_is t.id) (amended now payload digest source) db.facts;
        })
  unfolding amend
  amend-inv now payload digest source t g db db' h =
      elim (Bool-cases (breaks_key t digest db || t.version == i32_max)) [
        | inl e ↦
            let w : ◌≡◌ {A = Written P (FactRow P)} (err backend) (Done g db') = rw e at h in cc
        | inr e ↦
            let more : Db P = record db {
              facts = update_where (fact_is t.id) (amended now payload digest source) db.facts;
            } in
            let w : Done (amended now payload digest source t) more ≡ Done g db' = rw e at h in
            (cc, cc)
      ]

  mark_promoted-inv :
      (now : ℕ) (source : Source) (d : DissentRow P) (w : Written P (FactRow P)) (g : FactRow P)
      (db' : Db P)
      → mark_promoted now source d w ≡ Done g db'
      → (db : Db P) × (w ≡ Done g db) × (db' ≡ resolve now promoted source (dissent_is d.id) db)
  mark_promoted-inv now source d (ok (f, db)) g db' h =
      (db, (let q : f ≡ g = cc in ap (λ x. Done x db) q), cc)
  mark_promoted-inv now source d (err e) g db' h = cc

  -- The promotion of a dissent, once its row and its fact are read.
  promotion-Promoted :
      (now i : ℕ) (source : Source) (db db' : Db P) (d : DissentRow P) (f g : FactRow P)
      → find_dissent i db ≡ some d
      → is_pending d.status ≡ true
      → find_fact d.fact_id db ≡ some f
      → mark_promoted now source d (amend now d.proposed_payload d.payload_hash source f db)
        ≡ Done g db'
      → Promoted i source f.version db g db'
  unfolding resolve find_fact find_dissent
  promotion-Promoted now i source db db' d f g e s n h =
      let (db1, made, res) =
        mark_promoted-inv now source d (amend now d.proposed_payload d.payload_hash source f db) g
          db' h in
      let (g_eq, db1_eq) = amend-inv now d.proposed_payload d.payload_hash source f g db db1 made in
      let a = amended now d.proposed_payload d.payload_hash source in
      let found1 : find_dissent i db1 ≡ some d = rw db1_eq e in
      let id_d : d.id ≡ i = (==_iff d.id i).0 (find_by-holds (dissent_is i) db.dissents d e) in
      let itself : dissent_is d.id d ≡ true = (==_iff d.id d.id).1 refl in
      let closed1 : IsClosed i (resolve now promoted source (dissent_is d.id) db1) =
        resolve-IsClosed i now promoted source (dissent_is d.id) db1 d refl
          (λ x o. rw id_d (ground (arith, o))) found1 itself in
      let id_f : (f.id == f.id) ≡ true = (==_iff f.id f.id).1 refl in
      let stored1 : find_fact d.fact_id db1 ≡ some (a f) =
        ap (find_fact d.fact_id) db1_eq
        ∙ find_fact-update d.fact_id (fact_is f.id) a db.facts (λ x. refl)
        ∙ ap (mapped (changed (fact_is f.id) a)) n
        ∙ (rw id_f) in
      let (row, at_row, same) =
        refresh_rows-Same d.fact_id (dissent_is d.id) db1.dissents
          (update_where (dissent_is d.id) (resolved now promoted source) db1.dissents) db1.facts
          (a f) stored1 in
      record {
        dissent = d;
        fact = f;
        found = e;
        was_pending = s;
        from_fact = n;
        expected = refl;
        payload_eq = ap (λ (x : FactRow P). x.payload) g_eq;
        source_eq = ap (λ (x : FactRow P). x.source) g_eq;
        version_eq = ap (λ (x : FactRow P). x.version) g_eq;
        row = row;
        stored = rw res at_row;
        same = subst (λ x. SameContent x row) (sym g_eq) same;
        closed = subst (IsClosed i) (sym res) closed1;
      }

  -- A promotion that succeeds has found the dissent pending and its fact at the expected version; the
  -- fact has the proposed payload and the caller's source, one version on, and is stored so; and every
  -- later promotion or discard of the dissent is told that it is gone.
  pub promote_dissent-Promoted :
      (now i : ℕ) (source : Source) (ev : ℕ) (db db' : Db P) (g : FactRow P)
      → promote_dissent now i source ev db ≡ ok (g, db')
      → Promoted i source ev db g db'
  unfolding promote_dissent
  promote_dissent-Promoted now i source ev db db' g h = elim (Option-cases (find_dissent i db)) [
    | inl e ↦ let w : ◌≡◌ {A = Written P (FactRow P)} (err other) (Done g db') = rw e at h in cc
    | inr (d, e) ↦ elim (Bool-cases (is_pending d.status)) [
      | inr s ↦
          let w : ◌≡◌ {A = Written P (FactRow P)} (err gone) (Done g db') = rw (e, s) at h in cc
      | inl s ↦ elim (Option-cases (find_fact d.fact_id db)) [
        | inl n ↦
            let w : ◌≡◌ {A = Written P (FactRow P)} (err other) (Done g db') = rw (e, s, n) at h in
            cc
        | inr (f, n) ↦ elim (Bool-cases (f.version == ev)) [
          | inr m ↦
              let w : ◌≡◌ {A = Written P (FactRow P)} (err (version_conflict f.version))
                  (Done g db') =
                rw (e, s, n, m) at h in
              cc
          | inl m ↦
              let made : mark_promoted now source d
                    (amend now d.proposed_payload d.payload_hash source f db)
                  ≡ Done g db' =
                rw (e, s, n, m) at h in
              subst (λ v. Promoted i source v db g db') ((==_iff f.version ev).0 m)
                (promotion-Promoted now i source db db' d f g e s n made)
        ]
      ]
    ]
  ]
