-- ===== src/Search/Origins.antt =====
-- Where a memory of the result comes from, and what the collapse of duplicates keeps of the list.
use klams.Common.{
  ℕ, ◌+◌, ◌≤◌, ◌≡◌, refl, subst, ◌∙◌, inl, inr, true, false, Option, none, some, List, [], ◌∷◌,
  arith, if◌then◌else◌, map, sum_by, All, any, all, Text, text_eq, text_eq_iff, Bool-cases,
}
use klams.Floats.{F32}
use klams.Dedupe.Places.{holds}
use klams.Dedupe.Groups.{grouped, grouped_by, copies, collapse_duplicates-grouped}
use klams.Rerank.{fact, event, knowledge}
use klams.Search.{
  KnowledgeItem, Fact, Event, PublicAuthorRef, KnowledgeCopy, Content, fact_content,
  knowledge_content, event_content, PublicMemory, content_hash, hash_in, copies_set, set_copies,
  project_fact, project_knowledge, project_event, knowledge_matches_filters, fact_matches_filters,
  event_matches_filters,
}
use klams.Search.Store.{AuthorRecord, from_record, Store}
use klams.Search.Replies.{Replied, Given}
use klams.Search.Pipeline.{SearchParams, Entry, with_copies, as_copy, collapse_duplicates_in_place}
use klams.Search.Run.{wants}

-- The memory is the projection of something that the store replied, of a kind that is wanted and
-- that the filters admit, up to the copies that it absorbed; a fact or an event has the author that
-- came with it.
pub data Comes (f : F32) (s : Store f) (params : SearchParams) : PublicMemory → Type 0 where
  of_knowledge :
      (item : KnowledgeItem) (author : PublicAuthorRef)
      → Given f s item
      → wants params knowledge ≡ true
      → knowledge_matches_filters item params.filters ≡ true
      → Comes f s params (project_knowledge item author)
  of_fact :
      (t : Fact) (a : AuthorRecord) (ids : List ℕ)
      → Replied (t, a) (s.fetch_facts_with_authors ids)
      → wants params fact ≡ true
      → fact_matches_filters t params.filters ≡ true
      → Comes f s params (project_fact t (from_record a))
  of_event :
      (t : Event) (a : AuthorRecord) (ids : List ℕ)
      → Replied (t, a) (s.fetch_events_with_authors ids)
      → wants params event ≡ true
      → event_matches_filters t params.filters ≡ true
      → Comes f s params (project_event t (from_record a))
  of_copies :
      (cs : List KnowledgeCopy) (m : PublicMemory)
      → Comes f s params m
      → Comes f s params (set_copies cs m)

-- Every tag that is asked for is one of the memory's.
abbrev pub IsTagged : List Text → PublicMemory → Type 0
IsTagged want_tags m = all (λ t. any (λ u. text_eq u t) m.tags) want_tags ≡ true

pub hash_in-copies_set :
    (cs : List KnowledgeCopy) (c : Content) → hash_in (copies_set cs c) ≡ hash_in c
hash_in-copies_set cs (fact_content t p) = refl
hash_in-copies_set cs (knowledge_content i ds) = refl
hash_in-copies_set cs (event_content c p t) = refl

-- 1 for a memory with the hash, 0 for any other.
abbrev pub hash_count : Text → PublicMemory → ℕ
hash_count k m = if holds k (content_hash m) then 1 else 0

module _ (f : F32) where
  abbrev key : Entry f → Option Text
  key e = content_hash e.mem

  abbrev copy : Entry f → KnowledgeCopy
  copy e = as_copy e.mem

  with_copies-each :
      (P : PublicMemory → Type 0) (e : Entry f) (cs : List KnowledgeCopy)
      → ((cs : List KnowledgeCopy) (m : PublicMemory) → P m → P (set_copies cs m))
      → P e.mem
      → P (with_copies f (e, cs)).mem
  with_copies-each P e [] closed h = h
  with_copies-each P e (c ∷ cs) closed h = closed (c ∷ cs) e.mem h

  with_copies-count :
      (k : Text) (e : Entry f) (cs : List KnowledgeCopy)
      → hash_count k (with_copies f (e, cs)).mem ≡ hash_count k e.mem
  with_copies-count k e [] = refl
  with_copies-count k e (c ∷ cs) = rw (hash_in-copies_set (c ∷ cs) e.mem.content) refl

  grouped-each :
      (P : PublicMemory → Type 0) (seen : List Text) (xs : List (Entry f))
      → ((cs : List KnowledgeCopy) (m : PublicMemory) → P m → P (set_copies cs m))
      → All (λ (e : Entry f). P e.mem) xs
      → All
          (λ (e : Entry f). P e.mem)
          (map (with_copies f) (grouped (Entry f) KnowledgeCopy key copy seen xs))
  unfolding grouped
  grouped-each P seen [] closed h = tt
  grouped-each P seen (x ∷ xs) closed h = by_key (key x) (λ s. grouped-each P s xs closed h.1)
    where
      by_key :
          (o : Option Text)
          → ((s : List Text)
              → All
                  (λ (e : Entry f). P e.mem)
                  (map (with_copies f) (grouped (Entry f) KnowledgeCopy key copy s xs)))
          → All
              (λ (e : Entry f). P e.mem)
              (map (with_copies f) (
                grouped_by
                  (Entry f)
                  KnowledgeCopy
                  key
                  copy
                  x
                  o
                  seen
                  xs
                  (λ s. grouped (Entry f) KnowledgeCopy key copy s xs)))
      by_key none ih = (h.0, ih seen)
      by_key (some k) ih = elim (Bool-cases (any (λ j. text_eq j k) seen)) [
        | inl e ↦ rw e (ih seen)
        | inr e ↦ rw e (
          with_copies-each P x (copies (Entry f) KnowledgeCopy key copy k xs) closed h.0,
          ih (k ∷ seen),
        )
      ]

  abbrev times : Text → List (Entry f) → ℕ
  times k xs = sum_by (λ (e : Entry f). hash_count k e.mem) xs

  abbrev seen_count : Text → List Text → ℕ
  seen_count k seen = if any (λ j. text_eq j k) seen then 1 else 0

  hash_count-key :
      (k : Text) (o : Option Text) (m : PublicMemory)
      → content_hash m ≡ o
      → hash_count k m ≡ (if holds k o then 1 else 0)
  hash_count-key k o m e = rw e refl

  -- A hash that was seen does not come again, and any other comes at most once.
  grouped-times :
      (k : Text) (seen : List Text) (xs : List (Entry f))
      → times k (map (with_copies f) (grouped (Entry f) KnowledgeCopy key copy seen xs))
          + seen_count k seen
        ≤ 1
  unfolding grouped
  grouped-times k seen [] = elim (Bool-cases (any (λ j. text_eq j k) seen)) [
    | inl e ↦ rw e (omega arith)
    | inr e ↦ rw e (omega arith)
  ]
  grouped-times k seen (x ∷ xs) = by_key (key x) refl (λ s. grouped-times k s xs)
    where
      by_key :
          (o : Option Text)
          → content_hash x.mem ≡ o
          → ((s : List Text)
              → times k (map (with_copies f) (grouped (Entry f) KnowledgeCopy key copy s xs))
                  + seen_count k s
                ≤ 1)
          → times k (
                map (with_copies f) (
                  grouped_by
                    (Entry f)
                    KnowledgeCopy
                    key
                    copy
                    x
                    o
                    seen
                    xs
                    (λ s. grouped (Entry f) KnowledgeCopy key copy s xs)))
              + seen_count k seen
            ≤ 1
      by_key none e ih =
          let z : hash_count k x.mem ≡ 0 = hash_count-key k none x.mem e in
          omega (arith, z, ih seen)
      by_key (some j) e ih = elim (Bool-cases (any (λ i. text_eq i j) seen)) [
        | inl y ↦ rw y (ih seen)
        | inr y ↦
            let w = with_copies-count k x (copies (Entry f) KnowledgeCopy key copy j xs) in
            let z = hash_count-key k (some j) x.mem e in
            let i = ih (j ∷ seen) in
            elim (Bool-cases (text_eq j k)) [
              | inl same ↦
                  let jk : j ≡ k = (text_eq_iff j k).0 same in
                  let ns : any (λ i. text_eq i k) seen ≡ false =
                    subst (λ (t : Text). any (λ i. text_eq i t) seen ≡ false) jk y in
                  let z1 : hash_count k x.mem ≡ 1 = z ∙ rw same refl in
                  let i1 : times k (
                          map (with_copies f)
                            (grouped (Entry f) KnowledgeCopy key copy (j ∷ seen) xs))
                        + 1
                      ≤ 1 =
                    rw same at i in
                  rw (y, ns) (omega (arith, w, z1, i1))
              | inr other ↦
                  let z0 : hash_count k x.mem ≡ 0 = z ∙ rw other refl in
                  let i0 : times k (
                          map (with_copies f)
                            (grouped (Entry f) KnowledgeCopy key copy (j ∷ seen) xs))
                        + seen_count k seen
                      ≤ 1 =
                    rw other at i in
                  rw y (omega (arith, w, z0, i0))
            ]
      ]

  pub collapse-each :
      (P : PublicMemory → Type 0) (xs : List (Entry f))
      → ((cs : List KnowledgeCopy) (m : PublicMemory) → P m → P (set_copies cs m))
      → All (λ (e : Entry f). P e.mem) xs
      → All (λ (e : Entry f). P e.mem) (collapse_duplicates_in_place f xs)
  unfolding collapse_duplicates_in_place
  collapse-each P xs closed h =
      rw (collapse_duplicates-grouped (Entry f) KnowledgeCopy key copy xs)
        (grouped-each P [] xs closed h)

  -- After the collapse, no hash comes twice.
  pub collapse-once :
      (k : Text) (xs : List (Entry f))
      → sum_by (λ (e : Entry f). hash_count k e.mem) (collapse_duplicates_in_place f xs) ≤ 1
  unfolding collapse_duplicates_in_place
  collapse-once k xs =
      let t = grouped-times k [] xs in
      rw (collapse_duplicates-grouped (Entry f) KnowledgeCopy key copy xs) (omega (arith, t))
