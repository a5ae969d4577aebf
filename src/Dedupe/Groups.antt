-- ===== src/Dedupe/Groups.antt =====
-- `collapse_duplicates` agrees with a description that has no map: the first item of each key, with
-- the copies of all later items of that key.
use klams.Common.{
  ℕ, suc, ◌≡◌, refl, sym, ap, subst, ◌∙◌, inl, inr, true, false, Option, none, some, List, [], ◌∷◌,
  ◌++◌, map, if◌then◌else◌, any, filter_by, length, Text, text_eq, text_eq_refl, Bool-cases,
  Option-cases, is_some,
}
use mathlib.Core.List.{append_assoc, append-nil}
use klams.Dedupe.{Out, survivor, push_copy, collapse_from, collapse_duplicates}
use klams.Dedupe.Places.{
  holds, holds_iff, differs, find, IsFresh, Alone, apart, IsFresh-tail, Linked, Linked-keyless,
  Linked-push, Linked-new,
}

module _ (T C : Type 0) (key : T → Option Text) (as_copy : T → C) where
  abbrev pub copies : Text → List T → List C
  copies k xs = map as_copy (filter_by (λ x. holds k (key x)) xs)

  abbrev pub grouped_by : T → Option Text → List Text → List T → (List Text → Out T C) → Out T C
  grouped_by x none seen xs rest = (x, []) ∷ rest seen
  grouped_by x (some k) seen xs rest =
      if any (λ j. text_eq j k) seen then rest seen else (x, copies k xs) ∷ rest (k ∷ seen)

  -- The keys seen before, and the items.
  unfoldable pub grouped : List Text → List T → Out T C
  grouped seen [] = []
  grouped seen (x ∷ xs) = grouped_by x (key x) seen xs (λ s. grouped s xs)

  abbrev copies_for : Option Text → List T → List C
  copies_for none xs = []
  copies_for (some k) xs = copies k xs

  -- The entries with the copies that later items add.
  abbrev extended : Out T C → List T → Out T C
  extended [] xs = []
  extended ((t, cs) ∷ out) xs = (t, cs ++ copies_for (key t) xs) ∷ extended out xs

  -- An item adds nothing to an entry of another key.
  copies_skip :
      (o : Option Text) (x : T) (xs : List T)
      → ((k : Text) → o ≡ some k → holds k (key x) ≡ false)
      → copies_for o (x ∷ xs) ≡ copies_for o xs
  copies_skip none x xs a = refl
  copies_skip (some k) x xs a = rw (a k refl)

  extended_skip :
      (x : T) (xs : List T) (out : Out T C)
      → IsFresh T C key (key x) out
      → extended out (x ∷ xs) ≡ extended out xs
  extended_skip x xs [] f = refl
  extended_skip x xs ((t, cs) ∷ out) f = rw (
    copies_skip (key t) x xs (apart T C key (key t) (key x) out t cs refl f),
    extended_skip x xs out (IsFresh-tail T C key (key x) out t cs f),
  )

  extended_append :
      (x : T) (xs : List T) (out : Out T C)
      → extended (out ++ (x, []) ∷ []) xs ≡ extended out xs ++ (x, copies_for (key x) xs) ∷ []
  extended_append x xs [] = refl
  extended_append x xs ((t, cs) ∷ out) =
      ap (◌∷◌ (t, cs ++ copies_for (key t) xs)) (extended_append x xs out)

  copies_add :
      (k : Text) (x : T) (xs : List T) (cs : List C) (o : Option Text)
      → o ≡ some k
      → holds k (key x) ≡ true
      → (cs ++ as_copy x ∷ []) ++ copies_for o xs ≡ cs ++ copies_for o (x ∷ xs)
  copies_add k x xs cs o e h = rw (e, h) (append_assoc cs (as_copy x ∷ []) (copies k xs))

  -- A pushed copy is what the item adds to the entry of its key.
  extended_push :
      (k : Text) (x : T) (xs : List T) (pos : ℕ) (out : Out T C)
      → key x ≡ some k
      → find T C key k out ≡ some pos
      → Alone T C key out
      → extended (push_copy T C pos (as_copy x) out) xs ≡ extended out (x ∷ xs)
  unfolding push_copy
  extended_push k x xs pos [] e h a = cc
  extended_push k x xs pos ((t, cs) ∷ out) e h a = elim (Bool-cases (holds k (key t))) [
    | inl q ↦
        let kt : key t ≡ some k = holds_iff k (key t) q in
        let first : some 0 ≡ some pos = rw q at h in
        let zero_pos : 0 ≡ pos = cc in
        let kx : holds k (key x) ≡ true = rw e (text_eq_refl k) in
        let f : IsFresh T C key (key x) out = subst (λ o. IsFresh T C key o out) (kt ∙ sym e) a.0 in
        subst
          (λ p.
            extended (push_copy T C p (as_copy x) ((t, cs) ∷ out)) xs
            ≡ extended ((t, cs) ∷ out) (x ∷ xs))
          zero_pos (rw (copies_add k x xs cs (key t) kt kx, extended_skip x xs out f))
    | inr q ↦ elim (Option-cases (find T C key k out)) [
      | inl n ↦ let w : none ≡ some pos = rw (q, n) at h in cc
      | inr (m, n) ↦
          let w : some (suc m) ≡ some pos = rw (q, n) at h in
          let at_pos : suc m ≡ pos = cc in
          let ih = extended_push k x xs m out e n a.1 in
          subst
            (λ p.
              extended (push_copy T C p (as_copy x) ((t, cs) ∷ out)) xs
              ≡ extended ((t, cs) ∷ out) (x ∷ xs))
            at_pos (rw (copies_skip (key t) x xs (differs k (key t) (key x) e q), ih))
    ]
  ]

  abbrev seen_of : List (Text × ℕ) → List Text
  seen_of = map (λ (e : Text × ℕ). e.0)

  any-survivor :
      (k : Text) (survivors : List (Text × ℕ))
      → any (λ j. text_eq j k) (seen_of survivors) ≡ is_some (survivor T C k survivors)
  unfolding survivor
  any-survivor k [] = refl
  any-survivor k ((j, pos) ∷ more) = elim (Bool-cases (text_eq j k)) [
    | inl e ↦ rw e
    | inr e ↦ rw (e, any-survivor k more)
  ]

  extended_nil : (out : Out T C) → extended out [] ≡ out
  extended_nil [] = refl
  extended_nil ((t, cs) ∷ out) = rw (nothing (key t), append-nil cs, extended_nil out)
    where
      nothing : (o : Option Text) → copies_for o [] ≡ []
      nothing none = refl
      nothing (some k) = refl

  -- A new entry, with all that later items add to it.
  new_entry :
      (x : T) (xs : List T) (out rest : Out T C)
      → IsFresh T C key (key x) out
      → extended (out ++ (x, []) ∷ []) xs ++ rest
        ≡ extended out (x ∷ xs) ++ (x, copies_for (key x) xs) ∷ rest
  new_entry x xs out rest f =
      rw (extended_append x xs out, extended_skip x xs out f)
        (append_assoc (extended out xs) ((x, copies_for (key x) xs) ∷ []) rest)

  collapse_lem :
      (xs : List T) (survivors : List (Text × ℕ)) (out : Out T C)
      → Linked T C key survivors out
      → collapse_from T C key as_copy survivors out xs
        ≡ extended out xs ++ grouped (seen_of survivors) xs
  unfolding collapse_from grouped
  collapse_lem [] survivors out l = sym (append-nil (extended out []) ∙ extended_nil out)
  collapse_lem (x ∷ xs) survivors out l = elim (Option-cases (key x)) [
    | inl e ↦
        let more = out ++ (x, []) ∷ [] in
        let entry = new_entry x xs out (grouped (seen_of survivors) xs) (rw e tt) in
        rw e (
          collapse_lem xs survivors more (Linked-keyless T C key x survivors out l e)
          ∙ (rw e at entry))
    | inr (k, e) ↦ elim (Option-cases (find T C key k out)) [
      | inl n ↦
          let more = out ++ (x, []) ∷ [] in
          let unseen : survivor T C k survivors ≡ none = l.place k ∙ n in
          let entry = new_entry x xs out (grouped (k ∷ seen_of survivors) xs) (rw e n) in
          let ih =
            collapse_lem xs ((k, length out) ∷ survivors) more
              (Linked-new T C key k x survivors out l e n) in
          rw (e, unseen, any-survivor k survivors, unseen) (ih ∙ (rw e at entry))
      | inr (p, n) ↦
          let seen : survivor T C k survivors ≡ some p = l.place k ∙ n in
          let ih =
            collapse_lem xs survivors (push_copy T C p (as_copy x) out)
              (Linked-push T C key p (as_copy x) survivors out l) in
          let add = extended_push k x xs p out e n l.alone in
          rw (e, seen, any-survivor k survivors, seen)
            (ih ∙ ap (λ o. o ++ grouped (seen_of survivors) xs) add)
    ]
  ]

  -- The first item of each key survives, in order, with a copy of every later item of its key, in
  -- order; an item without a key always survives, with no copies.
  pub collapse_duplicates-grouped :
      (items : List T) → collapse_duplicates T C key as_copy items ≡ grouped [] items
  unfolding collapse_duplicates survivor
  collapse_duplicates-grouped items =
      collapse_lem items [] [] (record { place = λ k. refl; alone = tt })
