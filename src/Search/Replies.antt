-- ===== src/Search/Replies.antt =====
-- What the store replied: the rows of a reply, and the items that any of its searches gave.
use klams.Common.{
  ℕ, refl, inl, inr, Option, none, some, List, [], ◌∷◌, ◌==◌, All, All-mono, In, here, there,
  is_empty, Result, ok, err, Text, Bool-cases,
}
use klams.Facts.{StoreError}
use klams.Floats.{F32}
use klams.Search.{KnowledgeItem}
use klams.Search.Store.{Store, value_of}
use klams.Search.Knowledge.{global_arm, or_untagged}
use klams.Search.Texts.{collected}

-- The row is one of the reply's.
abbrev pub Replied : {A : Type 0} → A → Result StoreError (List A) → Type 0
Replied a (ok rows) = In a rows
Replied a (err e) = ⊥

-- What holds of the reply, if there is one.
abbrev pub Holds : {A : Type 0} → (A → Type 0) → Result StoreError A → Type 0
Holds P (ok a) = P a
Holds P (err e) = Unit

module _ {A : Type 0} where
  pub all-In : (xs : List A) → All (λ x. In x xs) xs
  all-In [] = tt
  all-In (x ∷ xs) =
      (here refl, All-mono (λ y. In y xs) (λ y. In y (x ∷ xs)) xs (λ y i. there i) (all-In xs))

  pub reply-Replied : (r : Result StoreError (List A)) → Holds (All (λ a. Replied a r)) r
  reply-Replied (ok rows) = all-In rows
  reply-Replied (err e) = tt

  reply-All :
      (P : A → Type 0) (r : Result StoreError (List A))
      → ((a : A) → Replied a r → P a)
      → Holds (All P) r
  reply-All P (ok rows) h = All-mono (λ a. In a rows) P rows h (all-In rows)
  reply-All P (err e) h = tt

module _ {A : Type 0} (Q : A → Type 0) where
  abbrev pub IfSome : Option A → Type 0
  IfSome none = Unit
  IfSome (some a) = Q a

  abbrev pub Rows : List (ℕ × A) → Type 0
  Rows = All (λ (row : ℕ × A). Q row.1)

  pub value_of-IfSome : (i : ℕ) (rows : List (ℕ × A)) → Rows rows → IfSome (value_of i rows)
  value_of-IfSome i [] h = tt
  value_of-IfSome i ((j, a) ∷ rows) h = elim (Bool-cases (j == i)) [
    | inl e ↦ rw e h.0
    | inr e ↦ rw e (value_of-IfSome i rows h.1)
  ]

  pub collected-Rows :
      {B : Type 0} (key : B → ℕ) (val : B → A) (bs : List B) (rows : List (ℕ × A))
      → All (λ b. Q (val b)) bs
      → Rows rows
      → Rows (collected key val bs rows)
  collected-Rows key val [] rows h k = k
  collected-Rows key val (b ∷ bs) rows h k =
      collected-Rows key val bs ((key b, val b) ∷ rows) h.1 (h.0, k)

-- One of the store's searches gave the item.
pub data Given (f : F32) (s : Store f) (item : KnowledgeItem) : Type 0 where
  by_vector :
      (v : s.Vector) (n : ℕ) (score : f.Float)
      → Replied (item, score) (s.search_knowledge v n)
      → Given f s item
  by_tags :
      (v : s.Vector) (tags : List Text) (n : ℕ) (score : f.Float)
      → Replied (item, score) (s.search_knowledge_tagged v tags n)
      → Given f s item
  by_curated :
      (v : s.Vector) (n : ℕ) (score : f.Float)
      → Replied (item, score) (s.search_knowledge_curated v n)
      → Given f s item
  by_lexical :
      (query : Text) (v : s.Vector) (n : ℕ) (score : f.Float)
      → Replied (item, score) (s.search_knowledge_lexical query v n)
      → Given f s item

module _ (f : F32) (s : Store f) where
  abbrev pub AllGiven : List (KnowledgeItem × f.Float) → Type 0
  AllGiven = All (λ (h : KnowledgeItem × f.Float). Given f s h.0)

  search_knowledge-Given : (v : s.Vector) (n : ℕ) → Holds AllGiven (s.search_knowledge v n)
  search_knowledge-Given v n = reply-All _ (s.search_knowledge v n) (λ h i. by_vector v n h.1 i)

  pub search_knowledge_curated-Given :
      (v : s.Vector) (n : ℕ) → Holds AllGiven (s.search_knowledge_curated v n)
  search_knowledge_curated-Given v n =
      reply-All _ (s.search_knowledge_curated v n) (λ h i. by_curated v n h.1 i)

  pub search_knowledge_lexical-Given :
      (query : Text) (v : s.Vector) (n : ℕ) → Holds AllGiven (s.search_knowledge_lexical query v n)
  search_knowledge_lexical-Given query v n =
      reply-All _ (s.search_knowledge_lexical query v n) (λ h i. by_lexical query v n h.1 i)

  or_untagged-Given :
      (v : s.Vector) (n : ℕ) (r : Result StoreError (List (KnowledgeItem × f.Float)))
      → Holds AllGiven r
      → Holds AllGiven (or_untagged f s v n r)
  or_untagged-Given v n (ok hits) h = h
  or_untagged-Given v n (err e) h = search_knowledge-Given v n

  pub global_arm-Given :
      (v : s.Vector) (tags : List Text) (n : ℕ) → Holds AllGiven (global_arm f s v tags n)
  unfolding global_arm
  global_arm-Given v tags n = elim (Bool-cases (is_empty tags)) [
    | inl e ↦ rw e (search_knowledge-Given v n)
    | inr e ↦ rw e (
        or_untagged-Given v n (s.search_knowledge_tagged v tags n)
          (reply-All _ (s.search_knowledge_tagged v tags n) (λ h i. by_tags v tags n h.1 i)))
  ]
