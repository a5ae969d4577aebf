-- ===== src/Copies/Attach.antt =====
-- Writing the copies of a point, and attaching one.
use klams.Common.{
  ℕ, Bool, true, false, not, Option, none, some, List, [], ◌∷◌, ◌++◌, any, Result, ok, err, Text,
  ◌==◌, ==_iff, ◌≡◌, ◌≢◌, refl, sym, ap, subst, ◌∙◌, Bool-cases, inl, inr, Option-cases,
  if◌then◌else◌, ◌⊎◌,
}
use klams.Facts.{StoreError}
use klams.Copies.{Fields, CopyEntry, parse_copies, copies_payload}
use klams.Copies.Calls.{
  Qdrant, write_copies, clear, attached, same_place, attach_found, attach_copy,
}
use klams.Copies.Collection.{
  IsCollection, Writes, IsIndexed, Holds, Holds-parse_copies, Holds-IsIndexed, copies_payload-Holds,
}

-- The copies of a point, if it is there.
abbrev pub copies_of : Option Fields → Option (List CopyEntry)
copies_of none = none
copies_of (some p) = some (parse_copies p)

-- The list with the copy attached, if its place is new.
abbrev pub with_copy : CopyEntry → List CopyEntry → List CopyEntry
with_copy new cs = if any (same_place new) cs then cs else cs ++ new ∷ []

abbrev pub or_absent : {A : Type 0} → (A → A) → Option A → Option A
or_absent f none = none
or_absent f (some a) = some (f a)

abbrev pub is_new : CopyEntry → Option (List CopyEntry) → Bool
is_new new none = false
is_new new (some cs) = not (any (same_place new) cs)

pub id_cases : (i id : ℕ) → (i ≡ id) ⊎ (i ≢ id)
id_cases i id = elim (Bool-cases (i == id)) [
  | inl e ↦ inl ((==_iff i id).0 e)
  | inr e ↦ inr (λ h. let k = (==_iff i id).1 h in let c : true ≡ false = sym k ∙ e in cc)
]

module _ (q : Qdrant) (b : IsCollection q) where
  abbrev pub AllIndexed : q.State → Type 0
  AllIndexed s = (i : ℕ) (p : Fields) → b.point s i ≡ some p → IsIndexed p

  clear-cases :
      (id : ℕ) (ks : List Text) (r : Result StoreError Unit × q.State) (t : q.State)
      → clear q id ks r ≡ (ok tt, t)
      → (s : q.State) × (◌≡◌ {A = Result StoreError Unit × q.State} r (ok tt, s)
          × ((s ≡ t)
              ⊎ (◌≡◌ {A = Result StoreError Unit × q.State} (q.delete_payload s id ks) (ok tt, t))))
  clear-cases id ks (err e, s) t h = elim not_err [ ]
    where
      not_err : ⊥
      not_err =
          let k : ◌≡◌ {A = Result StoreError Unit} (err e) (ok tt) =
            ap (λ (x : Result StoreError Unit × q.State). x.0) h in
          cc
  clear-cases id [] (ok tt, s) t h =
      (s, (refl, inl (ap (λ (x : Result StoreError Unit × q.State). x.1) h)))
  clear-cases id (k ∷ ks) (ok tt, s) t h = (s, (refl, inr h))

  -- After a write, the point holds the copies that were written, and no other point has changed.
  pub write_copies-Writes :
      (id : ℕ) (cs : List CopyEntry) (s t : q.State)
      → write_copies q id cs s ≡ (ok tt, t)
      → Writes b.point s t id (λ p p'. Holds cs p')
  unfolding write_copies
  write_copies-Writes id cs s t h =
      let (u, (set, next)) =
        clear-cases id (copies_payload cs).1 (q.set_payload s id (copies_payload cs).0) t h in
      let w = b.merges s u id (copies_payload cs).0 set in
      elim next [
        | inl e ↦
            subst (λ (v : q.State). Writes b.point s v id (λ p p'. Holds cs p')) e
              (record {
                others = w.others;
                on_none = w.on_none;
                on_some = λ p at.
                    let (p', (there, m)) = w.on_some p at in
                    (p', (there, copies_payload-Holds cs p p' p' m (λ k x. refl)));
              })
        | inr d ↦
            let c = b.clears u t id (copies_payload cs).1 d in
            record {
              others = λ i ne. c.others i ne ∙ w.others i ne;
              on_none = λ at. c.on_none (w.on_none at);
              on_some = λ p at.
                  let (p', (mid, m)) = w.on_some p at in
                  let (p2, (last, k)) = c.on_some p' mid in
                  (p2, (last, copies_payload-Holds cs p p' p2 m k));
            }
      ]

  pub some_or_none : (o : Option Fields) (p : Fields) → o ≡ some p → o ≡ none → ⊥
  some_or_none o p h k = let c : ◌≡◌ {A = Option Fields} (some p) none = sym h ∙ k in cc

  -- Where a write leaves the points.
  pub Writes-AllIndexed :
      (id : ℕ) (cs : List CopyEntry) (s t : q.State)
      → AllIndexed s
      → Writes b.point s t id (λ p p'. Holds cs p')
      → AllIndexed t
  Writes-AllIndexed id cs s t all w i p at = elim (id_cases i id) [
    | inr ne ↦ all i p (sym (w.others i ne) ∙ at)
    | inl e ↦
        let here : b.point t id ≡ some p = subst (λ (x : ℕ). b.point t x ≡ some p) e at in
        elim (Option-cases (b.point s id)) [
          | inl gone ↦ elim (some_or_none (b.point t id) p here (w.on_none gone)) [ ]
          | inr (p0, old) ↦
              let (p', (new, holds)) = w.on_some p0 old in
              let same : ◌≡◌ {A = Option Fields} (some p') (some p) = sym new ∙ here in
              let k : p' ≡ p = cc in
              Holds-IsIndexed cs p (subst (λ (x : Fields). Holds cs x) k holds)
        ]
  ]

  pub Writes-copies_of :
      (id : ℕ) (cs : List CopyEntry) (s t : q.State) (p : Fields)
      → b.point s id ≡ some p
      → Writes b.point s t id (λ p p'. Holds cs p')
      → copies_of (b.point t id) ≡ some cs
  Writes-copies_of id cs s t p at w =
      let (p', (new, holds)) = w.on_some p at in
      ap copies_of new ∙ ap (λ (l : List CopyEntry). some l) (Holds-parse_copies cs p' holds)

  -- What attaching a copy promises.
  pub record Attached (id : ℕ) (new : CopyEntry) (s t : q.State) (done : Bool) : Type 0 where
    pub others : (i : ℕ) → i ≢ id → b.point t i ≡ b.point s i
    pub here : copies_of (b.point t id) ≡ or_absent (with_copy new) (copies_of (b.point s id))
    pub told : done ≡ is_new new (copies_of (b.point s id))
    pub indexed : AllIndexed t

  unchanged-Attached :
      (id : ℕ) (new : CopyEntry) (s : q.State)
      → AllIndexed s
      → or_absent (with_copy new) (copies_of (b.point s id)) ≡ copies_of (b.point s id)
      → is_new new (copies_of (b.point s id)) ≡ false
      → Attached id new s s false
  unchanged-Attached id new s all e f = record {
    others = λ i ne. refl;
    here = sym e;
    told = sym f;
    indexed = all;
  }

  as_returned :
      (id : ℕ) (new : CopyEntry) (s s' t : q.State) (d done : Bool)
      → ◌≡◌ {A = Result StoreError Bool × q.State} (ok d, s') (ok done, t)
      → Attached id new s s' d
      → Attached id new s t done
  as_returned id new s s' t d done h a =
      let r : ◌≡◌ {A = Result StoreError Bool} (ok d) (ok done) =
        ap (λ (x : Result StoreError Bool × q.State). x.0) h in
      let k : d ≡ done = cc in
      let e : s' ≡ t = ap (λ (x : Result StoreError Bool × q.State). x.1) h in
      subst (λ (x : Bool). Attached id new s t x) k
        (subst (λ (x : q.State). Attached id new s x d) e a)

  attached-Writes :
      (id : ℕ) (new : CopyEntry) (s t : q.State) (p : Fields) (done : Bool)
      (r : Result StoreError Unit × q.State)
      → AllIndexed s
      → b.point s id ≡ some p
      → any (same_place new) (parse_copies p) ≡ false
      → write_copies q id (parse_copies p ++ new ∷ []) s ≡ r
      → attached q r ≡ (ok done, t)
      → Attached id new s t done
  attached-Writes id new s t p done (err e, u) all at isnew w h =
      let k : ◌≡◌ {A = Result StoreError Bool} (err e) (ok done) =
        ap (λ (x : Result StoreError Bool × q.State). x.0) h in
      elim (not_ok k) [ ]
    where
      not_ok : ◌≡◌ {A = Result StoreError Bool} (err e) (ok done) → ⊥
      not_ok k = cc
  attached-Writes id new s t p done (ok tt, u) all at isnew w h =
      let cs = parse_copies p ++ new ∷ [] in
      let wr = write_copies-Writes id cs s u w in
      as_returned id new s u t true done h (record {
        others = wr.others;
        here = Writes-copies_of id cs s u p at wr ∙ sym (rw (at, isnew) refl);
        told = rw (at, isnew) refl;
        indexed = Writes-AllIndexed id cs s u all wr;
      })

  found-Attached :
      (id : ℕ) (new : CopyEntry) (s t : q.State) (done : Bool)
      (o : Result StoreError (Option Fields))
      → AllIndexed s
      → q.get_points s id ≡ o
      → attach_found q id new s o ≡ (ok done, t)
      → Attached id new s t done
  found-Attached id new s t done (err e) all g h = elim (not_ok h) [ ]
    where
      not_ok : ◌≡◌ {A = Result StoreError Bool × q.State} (err e, s) (ok done, t) → ⊥
      not_ok h =
          let k : ◌≡◌ {A = Result StoreError Bool} (err e) (ok done) =
            ap (λ (x : Result StoreError Bool × q.State). x.0) h in
          cc
  found-Attached id new s t done (ok none) all g h =
      let at = b.got s id none g in
      as_returned id new s s t false done h
        (unchanged-Attached id new s all (rw (sym at) refl) (rw (sym at) refl))
  found-Attached id new s t done (ok (some p)) all g h =
      let at = sym (b.got s id (some p) g) in
      elim (Bool-cases (any (same_place new) (parse_copies p))) [
        | inl e ↦
            let k : ◌≡◌ {A = Result StoreError Bool × q.State} (ok false, s) (ok done, t) =
              rw e at h in
            as_returned id new s s t false done k
              (unchanged-Attached id new s all (rw (at, e) refl) (rw (at, e) refl))
        | inr e ↦
            let k : attached q (write_copies q id (parse_copies p ++ new ∷ []) s) ≡ (ok done, t) =
              rw e at h in
            attached-Writes id new s t p done (write_copies q id (parse_copies p ++ new ∷ []) s) all
              at e refl k
      ]

  -- Where attaching a copy succeeds, the copies of the point, if there is one, are as before with
  -- the new copy last, unless its place is among them; it tells whether the copy was new; no other
  -- point has changed; and a scroll by a place finds every copy, if it did before.
  pub attach_copy-Attached :
      (id : ℕ) (new : CopyEntry) (s t : q.State) (done : Bool)
      → AllIndexed s
      → attach_copy q id new.machine new.file new.repo s ≡ (ok done, t)
      → Attached id new s t done
  unfolding attach_copy
  attach_copy-Attached id new s t done all h =
      found-Attached id new s t done (q.get_points s id) all refl h
