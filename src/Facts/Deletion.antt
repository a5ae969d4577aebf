-- ===== src/Facts/Deletion.antt =====
-- Facts that are soft-deleted: their restoration, and the writes that meet them.
use klams.Common.{
  ℕ, ◌≡◌, refl, ap, ◌∙◌, inl, inr, Bool, true, false, not, Option, none, some, List, [], ◌∷◌, arith,
  ◌==◌, ==_iff, ◌&&◌, any, Text, Bool-cases, ok, is_some,
}
use klams.Decay.{FactType}
use klams.Facts.{FactRow, Db, find_by, find_fact, fact_is, fact_key_is, update_where}
use klams.Facts.Rows.{changed, mapped, find_fact-update, find_by-update_where, find_fact-id}
use klams.Facts.Write.{
  UpsertFact, persisted, live_is, deleted_is, deleted, undeleted, soft_delete_fact, restore_fact,
  touch, touched, upsert_fact_v2, mismatch,
}
use klams.Facts.Dissents.{propose_dissent}

module _ {P : Type 0} where
  -- No row with the id is live any more.
  live_none :
      (now i by : ℕ) (facts : List (FactRow P))
      → find_by (live_is i) (update_where (live_is i) (deleted now by) facts) ≡ none
  unfolding find_by update_where
  live_none now i by [] = refl
  live_none now i by (f ∷ facts) =
      let rest = live_none now i by facts in
      elim (Bool-cases (live_is i f)) [
        | inl e ↦ rw e (ground (arith, rest))
        | inr e ↦ rw (e, e) rest
      ]

  -- A row that is found by its id and has a mark is found with the mark.
  any_marked :
      (m : FactRow P → Bool) (i : ℕ) (facts : List (FactRow P)) (f : FactRow P)
      → find_by (fact_is i) facts ≡ some f
      → m f ≡ true
      → any (λ x. x.id == i && m x) facts ≡ true
  unfolding find_by
  any_marked m i [] f h n = cc
  any_marked m i (g ∷ facts) f h n = elim (Bool-cases (g.id == i)) [
    | inl e ↦
        let s : some g ≡ some f = rw e at h in
        let q : g ≡ f = cc in let d : m g ≡ true = ap m q ∙ n in rw (e, d)
    | inr e ↦ rw e (any_marked m i facts f (rw e at h) n)
  ]

  module _ (hash : FactType → P → Text) (now i by : ℕ) (f : FactRow P) (db : Db P) where
    -- A live fact that an author deletes is marked with the time and the author; no dissent can be
    -- proposed for it then, and nothing changes on the attempt; a restoration brings the row back with
    -- no mark of a deletion.
    pub restore-soft_delete_fact :
        find_fact i db ≡ some f
        → f.deleted_at ≡ none
        → any (λ a. a == by) db.authors ≡ true
        → (db' : Db P) × (soft_delete_fact now i by db ≡ ok (true, db'))
          × (find_fact i db' ≡ some (deleted now by f))
          × ((now' fresh : ℕ) (payload : P) (author : ℕ) (reason : Text) (against : Option ℕ)
              → propose_dissent hash now' fresh i payload author reason against db'
                ≡ ok (none, db'))
          × (db'' : Db P) × (restore_fact i db' ≡ ok (true, db''))
          × (find_fact i db'' ≡ some (undeleted f))
    unfolding soft_delete_fact restore_fact find_fact propose_dissent
    restore-soft_delete_fact h n k =
        let live = any_marked (λ x. not (is_some x.deleted_at)) i db.facts f h (rw n) in
        let id_f : (f.id == i) ≡ true = (==_iff f.id i).1 (find_fact-id i db f h) in
        let facts' = update_where (live_is i) (deleted now by) db.facts in
        let db' : Db P = record db { facts = facts' } in
        let db'' : Db P = record db { facts = update_where (deleted_is i) undeleted facts' } in
        let found : find_by (fact_is i) facts' ≡ some (deleted now by f) =
          find_fact-update i (live_is i) (deleted now by) db.facts (λ x. refl)
          ∙ ap (mapped (changed (live_is i) (deleted now by))) h
          ∙ (rw (id_f, n)) in
        let back : find_by (fact_is i) (update_where (deleted_is i) undeleted facts')
            ≡ some (undeleted f) =
          find_fact-update i (deleted_is i) undeleted facts' (λ x. refl)
          ∙ ap (mapped (changed (deleted_is i) undeleted)) found
          ∙ (rw id_f) in
        (
          db',
          rw (live, k),
          found,
          (λ now' fresh payload author reason against. rw (live_none now i by db.facts)),
          db'',
          rw (any_marked (λ x. is_some x.deleted_at) i facts' (deleted now by f) found refl),
          back,
        )

  live-touched :
      (now k i : ℕ) (facts : List (FactRow P))
      → find_by (live_is i) facts ≡ none
      → find_by (live_is i) (update_where (fact_is k) (touched now) facts) ≡ none
  live-touched now k i facts h =
      find_by-update_where (live_is i) (fact_is k) (touched now) facts (λ x. refl)
      ∙ ap (mapped (changed (fact_is k) (touched now))) h

  -- A write of what a deleted fact says, at any version, is told that the fact is persisted; the fact
  -- stays deleted, and no live fact has its id.
  pub upsert_fact_v2-hidden :
      (hash : FactType → P → Text) (now fresh : ℕ) (req : UpsertFact P) (f : FactRow P) (db : Db P)
      → find_by (fact_key_is req.fact_type (hash req.fact_type req.payload)) db.facts ≡ some f
      → find_by (live_is f.id) db.facts ≡ none
      → req.expected_version ≡ none
      → (g : FactRow P) × (db' : Db P) × (upsert_fact_v2 hash now fresh req db
          ≡ ok (persisted g, db'))
        × (g.id ≡ f.id)
        × (g.deleted_at ≡ f.deleted_at)
        × (find_by (live_is f.id) db'.facts ≡ none)
  unfolding upsert_fact_v2 mismatch
  upsert_fact_v2-hidden hash now fresh req f db h n v = (
    touched now f,
    touch now f db,
    (let m : mismatch req.expected_version f.version ≡ false = ap (λ o. mismatch o f.version) v in
        rw (h, m)),
    refl,
    refl,
    live-touched now f.id f.id db.facts n,
  )
