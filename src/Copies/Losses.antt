-- ===== src/Copies/Losses.antt =====
-- Removing the copies at a place from the points of a list of candidates.
use klams.Common.{
  ℕ, Bool, true, false, Option, none, some, List, [], ◌∷◌, any, length, All, Result, ok, err, Text,
  ◌==◌, ==_iff, ◌≡◌, ◌≢◌, refl, sym, ap, subst, ◌∙◌, Bool-cases, inl, inr,
}
use klams.Facts.{StoreError}
use klams.Copies.{Fields, CopyEntry, parse_copies}
use klams.Copies.Calls.{
  Qdrant, is_at, remaining_of, keep_remaining, counted, remove_one, remove_all,
}
use klams.Copies.Collection.{IsCollection}
use klams.Copies.Attach.{
  copies_of, AllIndexed, id_cases, write_copies-Writes, Writes-AllIndexed, Writes-copies_of,
  some_or_none,
}
use klams.Copies.Candidates.{has_id, has_id-none, IsPoint, Sound}
use klams.Copies.Without.{kept, without, same_length, lost_if}

module _ (q : Qdrant) (b : IsCollection q) (host : Text) (source_file : Text) where
  -- From u to v, the point of one id lost its copies at the place.
  record Lost (id : ℕ) (u v : q.State) : Type 0 where
    others : (i : ℕ) → i ≢ id → b.point v i ≡ b.point u i
    here : copies_of (b.point v id) ≡ without host source_file (copies_of (b.point u id))
    indexed : AllIndexed q b v

  removed-AllIndexed :
      (id : ℕ) (u v : q.State)
      → AllIndexed q b u
      → b.point v id ≡ none
      → ((i : ℕ) → i ≢ id → b.point v i ≡ b.point u i)
      → AllIndexed q b v
  removed-AllIndexed id u v all gone others i p at = elim (id_cases i id) [
    | inl e ↦
        elim (some_or_none q b (b.point v i) p at
          (subst (λ (x : ℕ). b.point v x ≡ none) (sym e) gone)) [ ]
    | inr ne ↦ all i p (sym (others i ne) ∙ at)
  ]

  keep_remaining-Lost :
      (id : ℕ) (rem : List CopyEntry) (u v : q.State) (p : Fields)
      → AllIndexed q b u
      → b.point u id ≡ some p
      → kept rem ≡ without host source_file (some (parse_copies p))
      → keep_remaining q id rem u ≡ (ok tt, v)
      → Lost id u v
  keep_remaining-Lost id [] u v p all at w h =
      let (gone, others) = b.removes u v id h in
      record {
        others = others;
        here = rw (gone, at) w;
        indexed = removed-AllIndexed id u v all gone others;
      }
  keep_remaining-Lost id (c ∷ cs) u v p all at w h =
      let wr = write_copies-Writes q b id (c ∷ cs) u v h in
      record {
        others = wr.others;
        here = Writes-copies_of q b id (c ∷ cs) u v p at wr ∙ w ∙ sym (rw at refl);
        indexed = Writes-AllIndexed q b id (c ∷ cs) u v all wr;
      }

  counted-ok :
      (n m : ℕ) (r : Result StoreError Unit × q.State) (v : q.State)
      → counted q n r ≡ (ok m, v)
      → ◌≡◌ {A = Result StoreError Unit × q.State} r (ok tt, v)
  counted-ok n m (ok tt, s) v h =
      let e : s ≡ v = ap (λ (x : Result StoreError ℕ × q.State). x.1) h in
      ap (λ (x : q.State). (ok tt, x)) e
  counted-ok n m (err e, s) v h =
      let k : ◌≡◌ {A = Result StoreError ℕ} (err e) (ok m) =
        ap (λ (x : Result StoreError ℕ × q.State). x.0) h in
      cc

  remove_one-Lost :
      (id : ℕ) (cs : List CopyEntry) (n m : ℕ) (u v : q.State) (p : Fields)
      → AllIndexed q b u
      → b.point u id ≡ some p
      → cs ≡ parse_copies p
      → remove_one q host source_file (id, cs) n u ≡ (ok m, v)
      → Lost id u v
  remove_one-Lost id cs n m u v p all at same h =
      elim (Bool-cases (any (is_at host source_file) cs)) [
        | inr e ↦
            let l : (length (remaining_of host source_file cs) == length cs) ≡ true =
              rw (same_length host source_file cs, e) refl in
            let k : ◌≡◌ {A = Result StoreError ℕ × q.State} (ok n, u) (ok m, v) = rw l at h in
            let uv : u ≡ v = ap (λ (x : Result StoreError ℕ × q.State). x.1) k in
            subst (λ (x : q.State). Lost id u x) uv
              (record { others = λ i ne. refl; here = rw (at, sym same, e) refl; indexed = all })
        | inl e ↦
            let l : (length (remaining_of host source_file cs) == length cs) ≡ false =
              rw (same_length host source_file cs, e) refl in
            let rem = remaining_of host source_file cs in
            let k : counted q n (keep_remaining q id rem u) ≡ (ok m, v) = rw l at h in
            let w : kept rem ≡ without host source_file (some (parse_copies p)) =
              rw (sym same, e) refl in
            keep_remaining-Lost id rem u v p all at w
              (counted-ok n m (keep_remaining q id rem u) v k)
      ]

  Lost-Sound :
      (id : ℕ) (cs : List (ℕ × List CopyEntry)) (u v : q.State)
      → Lost id u v
      → All (λ (d : ℕ × List CopyEntry). d.0 ≢ id) cs
      → All (IsPoint (b.point u)) cs
      → All (IsPoint (b.point v)) cs
  Lost-Sound id [] u v l ne g = tt
  Lost-Sound id (c ∷ cs) u v l ne g =
      let (p, (at, same)) = g.0 in
      ((p, (l.others c.0 ne.0 ∙ at, same)), Lost-Sound id cs u v l ne.1 g.1)

  remove_all-err :
      (cs : List (ℕ × List CopyEntry)) (e : StoreError) (v t : q.State) (m : ℕ)
      → remove_all q host source_file cs (err e, v) ≡ (ok m, t)
      → ⊥
  remove_all-err [] e v t m h =
      let k : ◌≡◌ {A = Result StoreError ℕ} (err e) (ok m) =
        ap (λ (x : Result StoreError ℕ × q.State). x.0) h in
      cc
  remove_all-err (c ∷ cs) e v t m h =
      let k : ◌≡◌ {A = Result StoreError ℕ} (err e) (ok m) =
        ap (λ (x : Result StoreError ℕ × q.State). x.0) h in
      cc

  pub record AllLost (cs : List (ℕ × List CopyEntry)) (u t : q.State) : Type 0 where
    pub at_each :
        (i : ℕ)
        → copies_of (b.point t i) ≡ lost_if host source_file (has_id i cs) (copies_of (b.point u i))
    pub indexed : AllIndexed q b t

  Lost-AllLost :
      (c : ℕ × List CopyEntry) (cs : List (ℕ × List CopyEntry)) (u v t : q.State)
      → All (λ (d : ℕ × List CopyEntry). d.0 ≢ c.0) cs
      → Lost c.0 u v
      → AllLost cs v t
      → AllLost (c ∷ cs) u t
  Lost-AllLost c cs u v t ne l a = record {
    at_each = λ i. elim (id_cases i c.0) [
      | inl e ↦
          let at_c : copies_of (b.point t c.0)
              ≡ lost_if host source_file (has_id c.0 (c ∷ cs)) (copies_of (b.point u c.0)) =
            rw ((==_iff c.0 c.0).1 refl) (
              subst
                (λ (x : Bool).
                  copies_of (b.point t c.0)
                  ≡ lost_if host source_file x (copies_of (b.point v c.0)))
                (has_id-none c.0 cs ne) (a.at_each c.0)
              ∙ l.here) in
          subst
            (λ (x : ℕ).
              copies_of (b.point t x)
              ≡ lost_if host source_file (has_id x (c ∷ cs)) (copies_of (b.point u x)))
            (sym e) at_c
      | inr n ↦ elim (Bool-cases (c.0 == i)) [
        | inl y ↦ elim (n (sym ((==_iff c.0 i).0 y))) [ ]
        | inr y ↦ rw y (
            subst
              (λ (x : Option Fields).
                copies_of (b.point t i) ≡ lost_if host source_file (has_id i cs) (copies_of x))
              (l.others i n) (a.at_each i))
      ]
    ];
    indexed = a.indexed;
  }

  pub remove_all-AllLost :
      (cs : List (ℕ × List CopyEntry)) (n m : ℕ) (u t : q.State)
      → AllIndexed q b u
      → Sound (b.point u) cs
      → remove_all q host source_file cs (ok n, u) ≡ (ok m, t)
      → AllLost cs u t
  remove_all-AllLost [] n m u t all s h =
      let e : u ≡ t = ap (λ (x : Result StoreError ℕ × q.State). x.1) h in
      subst (λ (x : q.State). AllLost [] u x) e (record { at_each = λ i. refl; indexed = all })
  remove_all-AllLost (c ∷ cs) n m u t all s h =
      go (remove_one q host source_file c n u) refl h (λ k v. remove_all-AllLost cs k m v t)
    where
      go :
          (r : Result StoreError ℕ × q.State)
          → remove_one q host source_file c n u ≡ r
          → remove_all q host source_file cs r ≡ (ok m, t)
          → ((k : ℕ) (v : q.State)
              → AllIndexed q b v
              → Sound (b.point v) cs
              → remove_all q host source_file cs (ok k, v) ≡ (ok m, t)
              → AllLost cs v t)
          → AllLost (c ∷ cs) u t
      go (err e, v) one rest next = elim (remove_all-err cs e v t m rest) [ ]
      go (ok k, v) one rest next =
          let (p, (at, same)) = s.0.0 in
          let l = remove_one-Lost c.0 c.1 n k u v p all at same one in
          Lost-AllLost c cs u v t s.1.0 l
            (next k v l.indexed (Lost-Sound c.0 cs u v l s.1.0 s.0.1, s.1.1) rest)
