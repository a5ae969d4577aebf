-- ===== src/Facts/Pending.antt =====
-- A dissent that is resolved stays so, and the trigger on it changes nothing but counts.
use klams.Common.{
  ℕ, ◌≡◌, refl, ap, ◌∙◌, inl, inr, Bool, true, false, none, some, List, [], ◌∷◌, arith, ◌==◌,
  Bool-cases, err,
}
use klams.Facts.{
  Source, DissentStatus, gone, FactRow, DissentRow, Db, find_by, fact_is, find_dissent, is_pending,
  dissent_is, update_where, refresh, refresh_rows, pending_count,
}
use klams.Facts.Rows.{changed, mapped, find_by-update_where, find_fact-update}
use klams.Facts.Trust.{SameContent, content_eq, SameContent-trans}
use klams.Facts.Dissents.{promote_dissent, discard_dissent, resolve, resolved, open_is}

module _ {P : Type 0} where
  -- The trigger changes nothing but counts.
  pub refresh-Same :
      (k i : ℕ) (ds : List (DissentRow P)) (facts : List (FactRow P)) (f : FactRow P)
      → find_by (fact_is k) facts ≡ some f
      → (g : FactRow P) × (find_by (fact_is k) (refresh i ds facts) ≡ some g) × SameContent f g
  unfolding refresh
  refresh-Same k i ds facts f h =
      let g : FactRow P → FactRow P = λ x. record x { dissent_count = pending_count i ds } in
      (
        changed (fact_is i) g f,
        find_fact-update k (fact_is i) g facts (λ x. refl) ∙ ap (mapped (changed (fact_is i) g)) h,
        elim (Bool-cases (f.id == i)) [
          | inl e ↦ rw e (content_eq f (g f) refl refl refl refl refl refl refl)
          | inr e ↦ rw e (content_eq f f refl refl refl refl refl refl refl)
        ],
      )

  pub refresh_rows-Same :
      (k : ℕ) (rows : DissentRow P → Bool) (cs ds : List (DissentRow P)) (facts : List (FactRow P))
      (f : FactRow P)
      → find_by (fact_is k) facts ≡ some f
      → (g : FactRow P) × (find_by (fact_is k) (refresh_rows rows cs ds facts) ≡ some g)
        × SameContent f g
  unfolding refresh_rows
  refresh_rows-Same k rows [] ds facts f h =
      (f, h, content_eq f f refl refl refl refl refl refl refl)
  refresh_rows-Same k rows (d ∷ cs) ds facts f h = elim (Bool-cases (rows d)) [
    | inl e ↦
        let (g, l, s) = refresh-Same k d.fact_id ds facts f h in
        let (m, n, t) = refresh_rows-Same k rows cs ds (refresh d.fact_id ds facts) g l in
        rw e (m, n, SameContent-trans f g m s t)
    | inr e ↦ rw e (refresh_rows-Same k rows cs ds facts f h)
  ]

  -- A dissent that is not pending any more: no call resolves it again.
  abbrev pub IsClosed : ℕ → Db P → Type 0
  IsClosed i db =
      ((now : ℕ) (source : Source) (ev : ℕ) → promote_dissent now i source ev db ≡ err gone)
      × ((now : ℕ) (source : Source) → discard_dissent now i source db ≡ err gone)

  -- No row of the dissent is pending.
  open_none :
      (i now : ℕ) (status : DissentStatus) (source : Source) (rows : DissentRow P → Bool)
      (ds : List (DissentRow P))
      → is_pending status ≡ false
      → ((d : DissentRow P) → open_is i d ≡ true → rows d ≡ true)
      → find_by (open_is i) (update_where rows (resolved now status source) ds) ≡ none
  unfolding find_by update_where
  open_none i now status source rows [] s k = refl
  open_none i now status source rows (d ∷ ds) s k =
      let rest = open_none i now status source rows ds s k in
      elim (Bool-cases (rows d)) [
        | inl e ↦ rw (e, s) (ground (arith, rest))
        | inr e ↦ elim (Bool-cases (open_is i d)) [
          | inl o ↦ let w : rows d ≡ true = k d o in cc
          | inr o ↦ rw (e, o) rest
        ]
      ]

  pub resolve-IsClosed :
      (i now : ℕ) (status : DissentStatus) (source : Source) (rows : DissentRow P → Bool)
      (db : Db P) (d : DissentRow P)
      → is_pending status ≡ false
      → ((e : DissentRow P) → open_is i e ≡ true → rows e ≡ true)
      → find_dissent i db ≡ some d
      → rows d ≡ true
      → IsClosed i (resolve now status source rows db)
  unfolding resolve promote_dissent discard_dissent find_dissent
  resolve-IsClosed i now status source rows db d s k h r =
      let g = resolved now status source in
      let found : find_by (dissent_is i) (update_where rows g db.dissents) ≡ some (g d) =
        find_by-update_where (dissent_is i) rows g db.dissents (λ x. refl)
        ∙ ap (mapped (changed rows g)) h
        ∙ (rw r) in
      (
        (λ now' source' ev. rw (found, s)),
        (λ now' source'. rw (open_none i now status source rows db.dissents s k)),
      )
