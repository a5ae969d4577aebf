-- ===== src/Search/Neighbours.antt =====
-- What the neighbours of an item are.
use klams.Common.{
  ℕ, suc, ◌+◌, ◌≤◌, ◌≡◌, refl, ap, ◌∙◌, inl, inr, Bool, true, false, not, ◌||◌, ◌&&◌, Option, none,
  some, List, [], ◌∷◌, arith, In, map, ◌==◌, ltb, length, length-map, length-take, take, sum_by,
  All, filter_by, is_empty, unwrap_or, ok, Text, Bool-cases, tests,
}
use klams.Floats.{F32}
use klams.Rerank.{knowledge}
use klams.Rerank.Filter.{filter_by-All}
use klams.Timeline.Merge.{All-take}
use klams.Search.Replies.{all-In}
use klams.Search.Stages.{All-filter_by}
use klams.Search.{
  PublicAuthorRef, project_knowledge, KnowledgeItem, KnowledgeCopy, PublicMemory, kind,
  content_hash, set_copies, is_text,
}
use klams.Search.Store.{Store}
use klams.Search.Knowledge.{
  KnowledgeAuthors, author_ref_for, saturating_mul, resolve_knowledge_authors,
}
use klams.Search.Pipeline.{Entry, max_top_k, collapse_duplicates_in_place}
use klams.Search.Origins.{hash_count, hash_in-copies_set, collapse-each, collapse-once}
use klams.Search.Results.{sum_by-take-le, kind-copies_set}
use klams.Search.Related.{seed_hash, is_neighbour, entries, neighbours, related}

-- The hash, if there is one, is not the seed's.
abbrev pub differs : Option Text → Option Text → Bool
differs seed none = true
differs seed (some hash) = not (is_text seed hash)

both_not : (a b : Bool) → (not a && not b) ≡ true → (a ≡ false) × (not b ≡ true)
both_not a b h = ground (arith, h)

module _ (f : F32) (raw : List (KnowledgeItem × f.Float)) where
  -- The projection of one of the items, up to the copies that it absorbed.
  pub data IsProjected : PublicMemory → Type 0 where
    of_item :
        (item : KnowledgeItem) (score : f.Float) (author : PublicAuthorRef)
        → In (item, score) raw
        → IsProjected (project_knowledge item author)
    of_copies :
        (cs : List KnowledgeCopy) (m : PublicMemory) → IsProjected m → IsProjected (set_copies cs m)

  module _ (id : ℕ) (seed : Option Text) where
    -- One of the items that is neither the seed nor a copy of its content.
    pub record IsNeighbour (m : PublicMemory) : Type 0 where
      pub projected : IsProjected m
      pub is_knowledge : kind m ≡ knowledge
      pub other_id : (m.id == id) ≡ false
      pub other_content : differs seed (content_hash m) ≡ true

    IsNeighbour-set_copies :
        (cs : List KnowledgeCopy) (m : PublicMemory) → IsNeighbour m → IsNeighbour (set_copies cs m)
    IsNeighbour-set_copies cs m h = record {
      projected = of_copies cs m h.projected;
      is_knowledge = kind-copies_set cs m.content ∙ h.is_knowledge;
      other_id = h.other_id;
      other_content = ap (differs seed) (hash_in-copies_set cs m.content) ∙ h.other_content;
    }

    entries-IsNeighbour :
        (authors : KnowledgeAuthors) (rank : ℕ) (hits : List (KnowledgeItem × f.Float))
        → All (λ (h : KnowledgeItem × f.Float). In h raw) hits
        → All
            (λ (h : KnowledgeItem × f.Float). is_neighbour id seed h.0.id h.0.content_hash ≡ true)
            hits
        → All (λ (e : Entry f). IsNeighbour e.mem) (entries f authors rank hits)
    entries-IsNeighbour authors rank [] i h = tt
    entries-IsNeighbour authors rank ((item, score) ∷ hits) i h =
        let (a, b) = both_not (item.id == id) (is_text seed item.content_hash) h.0 in
        (
          record {
            projected = of_item item score (author_ref_for authors item.id) i.0;
            is_knowledge = refl;
            other_id = a;
            other_content = b;
          },
          entries-IsNeighbour authors (suc rank) hits i.1 h.1,
        )

    -- What is asked of the neighbours of an item, at most `top_k`.
    pub record AreNeighbours (top_k : ℕ) (mems : List PublicMemory) : Type 0 where
      pub few : length mems ≤ top_k
      pub each : All IsNeighbour mems
      -- no content comes twice
      pub once : (hash : Text) → sum_by (hash_count hash) mems ≤ 1

module _ (f : F32) where
  map-mem :
      (P : PublicMemory → Type 0) (xs : List (Entry f))
      → All (λ (e : Entry f). P e.mem) xs
      → All P (map (λ (e : Entry f). e.mem) xs)
  map-mem P [] h = tt
  map-mem P (x ∷ xs) h = (h.0, map-mem P xs h.1)

  sum_by-map-mem :
      (g : PublicMemory → ℕ) (xs : List (Entry f))
      → sum_by g (map (λ (e : Entry f). e.mem) xs) ≡ sum_by (λ (e : Entry f). g e.mem) xs
  sum_by-map-mem g [] = refl
  sum_by-map-mem g (x ∷ xs) = ap (λ (n : ℕ). g x.mem + n) (sum_by-map-mem g xs)

  module _ (s : Store f) (id : ℕ) where
    abbrev seed : Option Text
    seed = seed_hash (s.get_knowledge id)

    neighbours-AreNeighbours :
        (top_k : ℕ) (raw : List (KnowledgeItem × f.Float))
        → AreNeighbours f raw id seed top_k (neighbours f s id top_k raw)
    neighbours-AreNeighbours top_k raw =
        let test : KnowledgeItem × f.Float → Bool =
          λ h. is_neighbour id seed h.0.id h.0.content_hash in
        let hits = filter_by test raw in
        let authors =
          resolve_knowledge_authors f s (map (λ (h : KnowledgeItem × f.Float). h.0.id) hits) in
        let list = entries f authors 0 hits in
        let scored = collapse_duplicates_in_place f list in
        let all =
          collapse-each f (IsNeighbour f raw id seed) list (IsNeighbour-set_copies f raw id seed) (
            entries-IsNeighbour f raw id seed authors 0 hits
              (All-filter_by (λ (h : KnowledgeItem × f.Float). In h raw) test raw (all-In raw))
              (filter_by-All test raw)) in
        let some_hits : AreNeighbours f raw id seed top_k
            (map (λ (e : Entry f). e.mem) (take top_k scored)) =
          record {
            few =
                let a = length-map (take top_k scored) (λ (e : Entry f). e.mem) in
                let b = length-take top_k scored in omega (arith, a, b);
            each =
                map-mem (IsNeighbour f raw id seed) (take top_k scored)
                  (All-take (λ (e : Entry f). IsNeighbour f raw id seed e.mem) top_k scored all);
            once = λ hash.
                let a = sum_by-map-mem (hash_count hash) (take top_k scored) in
                let b = sum_by-take-le (λ (e : Entry f). hash_count hash e.mem) top_k scored in
                let c = collapse-once f hash list in omega (arith, a, b, c);
          } in
        elim (Bool-cases (is_empty hits)) [
          | inl e ↦ rw e (record { few = omega arith; each = tt; once = λ hash. omega arith })
          | inr e ↦ rw e some_hits
        ]

    -- If the id is not nil and has a vector, at least 1 and at most 50 neighbours are asked for, and
    -- the search by the vector gives hits: whatever else the store does, related has a result, of at
    -- most so many memories (5 if no number is given), each of them the projection of one of the hits,
    -- up to copies, knowledge, not the item, and not of the hash of its content, if that is known; and
    -- no content hash comes twice.
    pub related-AreNeighbours :
        (asked : Option ℕ) (vector : s.Vector) (raw : List (KnowledgeItem × f.Float))
        → 1 ≤ unwrap_or asked 5
        → unwrap_or asked 5 ≤ max_top_k
        → (id == 0) ≡ false
        → s.get_point_vector id ≡ ok (some vector)
        → s.search_knowledge vector (saturating_mul (unwrap_or asked 5 + 1) 2) ≡ ok raw
        → (mems : List PublicMemory) × ((related f s id asked ≡ ok mems)
            × AreNeighbours f raw id seed (unwrap_or asked 5) mems)
    unfolding related
    related-AreNeighbours asked vector raw low high n v h =
        let valid : (unwrap_or asked 5 == 0 || ltb max_top_k (unwrap_or asked 5)) ≡ false =
          grind (tests, low, high) in
        let top_k = unwrap_or asked 5 in
        (
          neighbours f s id top_k raw,
          (rw (valid, n, v, h) refl, neighbours-AreNeighbours top_k raw),
        )
