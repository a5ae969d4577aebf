-- ===== src/Dedupe/Places.antt =====
-- Where the entry of each key stands among the entries that `collapse_from` has built, and the map of
-- survivors that says so.
use klams.Common.{
  ℕ, zero, suc, ◌≡◌, refl, sym, ap, ◌∙◌, inl, inr, Bool, true, false, Option, none, some, List, [],
  ◌∷◌, ◌++◌, if◌then◌else◌, length, Text, text_eq, text_eq_iff, Bool-cases, Option-cases,
}
use klams.Dedupe.{Out, survivor, push_copy}

abbrev pub holds : Text → Option Text → Bool
holds k none = false
holds k (some j) = text_eq j k

abbrev next : Option ℕ → Option ℕ
next none = none
next (some n) = some (suc n)

next_none : (o : Option ℕ) → next o ≡ none → o ≡ none
next_none none h = refl
next_none (some n) h = cc

text_neq : (j k : Text) → text_eq j k ≡ false → text_eq k j ≡ false
text_neq j k h = elim (Bool-cases (text_eq k j)) [
  | inl e ↦ let q = (text_eq_iff j k).1 (sym ((text_eq_iff k j).0 e)) in cc
  | inr e ↦ e
]

pub holds_iff : (k : Text) (o : Option Text) → holds k o ≡ true → o ≡ some k
holds_iff k none h = cc
holds_iff k (some j) h = ap some ((text_eq_iff j k).0 h)

pub differs :
    (k : Text) (o p : Option Text)
    → p ≡ some k
    → holds k o ≡ false
    → (j : Text) → o ≡ some j
    → holds j p ≡ false
differs k o p e h j q =
    let w : holds k (some j) ≡ false = sym (ap (holds k) q) ∙ h in ap (holds j) e ∙ text_neq j k w

module _ (T C : Type 0) (key : T → Option Text) where
  -- The place of the first entry with the key.
  abbrev pub find : Text → Out T C → Option ℕ
  find k [] = none
  find k ((t, cs) ∷ out) = if holds k (key t) then some 0 else next (find k out)

  abbrev pub IsFresh : Option Text → Out T C → Type 0
  IsFresh none out = Unit
  IsFresh (some k) out = find k out ≡ none

  -- No two entries have one key.
  abbrev pub Alone : Out T C → Type 0
  Alone [] = Unit
  Alone ((t, cs) ∷ out) = IsFresh (key t) out × Alone out

  find_cons :
      (k : Text) (t : T) (cs : List C) (out : Out T C)
      → find k ((t, cs) ∷ out) ≡ none
      → (holds k (key t) ≡ false) × (find k out ≡ none)
  find_cons k t cs out h = elim (Bool-cases (holds k (key t))) [
    | inl e ↦ let q : ◌≡◌ {A = Option ℕ} (some 0) none = rw e at h in cc
    | inr e ↦ let q : next (find k out) ≡ none = rw e at h in (e, next_none (find k out) q)
  ]

  find-push_copy :
      (k : Text) (pos : ℕ) (c : C) (out : Out T C) → find k (push_copy T C pos c out) ≡ find k out
  unfolding push_copy
  find-push_copy k pos c [] = refl
  find-push_copy k zero c ((t, cs) ∷ out) = refl
  find-push_copy k (suc pos) c ((t, cs) ∷ out) = rw (find-push_copy k pos c out)

  IsFresh-push :
      (o : Option Text) (pos : ℕ) (c : C) (out : Out T C)
      → IsFresh o out
      → IsFresh o (push_copy T C pos c out)
  IsFresh-push none pos c out h = tt
  IsFresh-push (some k) pos c out h = find-push_copy k pos c out ∙ h

  Alone-push : (pos : ℕ) (c : C) (out : Out T C) → Alone out → Alone (push_copy T C pos c out)
  unfolding push_copy
  Alone-push pos c [] h = h
  Alone-push zero c ((t, cs) ∷ out) h = h
  Alone-push (suc pos) c ((t, cs) ∷ out) h =
      (IsFresh-push (key t) pos c out h.0, Alone-push pos c out h.1)

  find-append_some :
      (k : Text) (x : T) (p : ℕ) (out : Out T C)
      → find k out ≡ some p
      → find k (out ++ (x, []) ∷ []) ≡ some p
  find-append_some k x p [] h = cc
  find-append_some k x p ((t, cs) ∷ out) h = elim (Bool-cases (holds k (key t))) [
    | inl e ↦ let q : some 0 ≡ some p = rw e at h in rw e q
    | inr e ↦ elim (Option-cases (find k out)) [
      | inl n ↦ let q : none ≡ some p = rw (e, n) at h in cc
      | inr (m, n) ↦
          let q : some (suc m) ≡ some p = rw (e, n) at h in rw (e, find-append_some k x m out n) q
    ]
  ]

  find-append_none :
      (k : Text) (x : T) (out : Out T C)
      → find k out ≡ none
      → find k (out ++ (x, []) ∷ []) ≡ (if holds k (key x) then some (length out) else none)
  find-append_none k x [] h = refl
  find-append_none k x ((t, cs) ∷ out) h =
      let r = find_cons k t cs out h in
      rw (r.0, find-append_none k x out r.1) (next_if (holds k (key x)) (length out))
    where
      next_if :
          (b : Bool) (n : ℕ)
          → next (if b then some n else none) ≡ (if b then some (suc n) else none)
      next_if true n = refl
      next_if false n = refl

  -- Keys that differ, both ways.
  pub apart :
      (o p : Option Text) (out : Out T C) (t : T) (cs : List C)
      → key t ≡ o
      → IsFresh p ((t, cs) ∷ out)
      → (k : Text) → o ≡ some k
      → holds k p ≡ false
  apart o none out t cs e h k q = refl
  apart o (some j) out t cs e h k q =
      let r = (find_cons j t cs out h).0 in
      let w : holds j (some k) ≡ false = sym (ap (holds j) (e ∙ q)) ∙ r in text_neq k j w

  pub IsFresh-tail :
      (p : Option Text) (out : Out T C) (t : T) (cs : List C)
      → IsFresh p ((t, cs) ∷ out)
      → IsFresh p out
  IsFresh-tail none out t cs h = tt
  IsFresh-tail (some k) out t cs h = (find_cons k t cs out h).1

  IsFresh-append :
      (o : Option Text) (x : T) (out : Out T C)
      → ((k : Text) → o ≡ some k → holds k (key x) ≡ false)
      → IsFresh o out
      → IsFresh o (out ++ (x, []) ∷ [])
  IsFresh-append none x out a h = tt
  IsFresh-append (some k) x out a h =
      find-append_none k x out h ∙ ap (λ b. if b then some (length out) else none) (a k refl)

  Alone-append :
      (x : T) (out : Out T C) → IsFresh (key x) out → Alone out → Alone (out ++ (x, []) ∷ [])
  Alone-append x [] f h = (none_fresh (key x), tt)
    where
      none_fresh : (o : Option Text) → IsFresh o []
      none_fresh none = tt
      none_fresh (some k) = refl
  Alone-append x ((t, cs) ∷ out) f h = (
    IsFresh-append (key t) x out (apart (key t) (key x) out t cs refl f) h.0,
    Alone-append x out (IsFresh-tail (key x) out t cs f) h.1,
  )

  -- The map of survivors says of each key where its entry stands.
  pub record Linked (survivors : List (Text × ℕ)) (out : Out T C) : Type 0 where
    pub place : (k : Text) → survivor T C k survivors ≡ find k out
    pub alone : Alone out

  unlike :
      (k j : Text) (p : ℕ) (out : Out T C)
      → find k out ≡ none
      → find j out ≡ some p
      → text_eq k j ≡ false
  unlike k j p out n m = elim (Bool-cases (text_eq k j)) [
    | inl e ↦ let q = ap (λ i. find i out) ((text_eq_iff k j).0 e) in cc
    | inr e ↦ e
  ]

  pub Linked-keyless :
      (x : T) (survivors : List (Text × ℕ)) (out : Out T C)
      → Linked survivors out
      → key x ≡ none
      → Linked survivors (out ++ (x, []) ∷ [])
  Linked-keyless x survivors out l e = record {
    place = λ j. elim (Option-cases (find j out)) [
      | inl m ↦ rw (l.place j, find-append_none j x out m, e, m)
      | inr (p, m) ↦ rw (l.place j, find-append_some j x p out m, m)
    ];
    alone = Alone-append x out (rw e tt) l.alone;
  }

  pub Linked-push :
      (pos : ℕ) (c : C) (survivors : List (Text × ℕ)) (out : Out T C)
      → Linked survivors out
      → Linked survivors (push_copy T C pos c out)
  Linked-push pos c survivors out l = record {
    place = λ j. l.place j ∙ sym (find-push_copy j pos c out);
    alone = Alone-push pos c out l.alone;
  }

  pub Linked-new :
      (k : Text) (x : T) (survivors : List (Text × ℕ)) (out : Out T C)
      → Linked survivors out
      → key x ≡ some k
      → find k out ≡ none
      → Linked ((k, length out) ∷ survivors) (out ++ (x, []) ∷ [])
  unfolding survivor
  Linked-new k x survivors out l e n = record {
    place = λ j. elim (Option-cases (find j out)) [
      | inl m ↦ rw (l.place j, find-append_none j x out m, e, m)
      | inr (p, m) ↦
          let differ = unlike k j p out n m in
          rw (l.place j, find-append_some j x p out m, differ, m)
    ];
    alone = Alone-append x out (rw e n) l.alone;
  }
