-- ===== src/Chunk/Published.antt =====
-- Every chunk that is published fits the embedder, and the chunks are numbered in order.
use klams.Common.{
  ℕ, suc, ◌+◌, ◌≤◌, ◌≡◌, refl, sym, subst, inl, inr, true, Option, none, some, List, [], ◌∷◌, ◌++◌,
  arith, is_empty, length, Text, All, All-append, Bool-cases,
}
use klams.EmbedLimit.{EmbedLimit, fits}
use klams.Windows.Limit.{enforce_limit-glue, enforce_limit-fits}
use klams.Normalize.{normalize_chunk_text}
use klams.Chunk.{Lang, Chunk, Piece, Tools, pieces_of, text_of, chunks_of, cut, chunks_from, chunk}

-- The indices are those from a number on, in order.
abbrev pub Numbered : ℕ → List Chunk → Type 0
Numbered i [] = Unit
Numbered i (c ∷ cs) = (c.index ≡ i) × Numbered (suc i) cs

Numbered-append :
    (i : ℕ) (cs ds : List Chunk)
    → Numbered i cs
    → Numbered (i + length cs) ds
    → Numbered i (cs ++ ds)
Numbered-append i [] ds h k = subst (λ n. Numbered n ds) (omega arith) k
Numbered-append i (c ∷ cs) ds h k =
    (h.0, Numbered-append (suc i) cs ds h.1 (subst (λ n. Numbered n ds) (omega arith) k))

module _ (t : Tools) (lang : Lang) (limit : EmbedLimit) (large : 66 ≤ limit.max_input_tokens) where
  Fits : List Text → Type 0
  Fits = All (λ s. fits limit s ≡ true)

  abbrev FitAll : List Chunk → Type 0
  FitAll = All (λ (c : Chunk). fits limit c.text ≡ true)

  chunks_of-Numbered :
      (p : Piece) (i : ℕ) (ss : List Text)
      → Fits ss
      → Numbered i (chunks_of t lang p i ss)
        × FitAll (chunks_of t lang p i ss)
        × (length (chunks_of t lang p i ss) ≡ length ss)
  unfolding chunks_of Fits
  chunks_of-Numbered p i [] h = (tt, tt, refl)
  chunks_of-Numbered p i (s ∷ ss) h =
      let r = chunks_of-Numbered p (suc i) ss h.1 in ((refl, r.0), (h.0, r.1), omega (arith, r.2))

  -- Cutting always ends, with pieces that fit.
  cut-Fits : (o : Option Text) → (ss : List Text) × (cut limit o ≡ some ss) × Fits ss
  unfolding Fits
  cut-Fits none = ([], refl, tt)
  cut-Fits (some s) =
      let g = enforce_limit-glue s limit (omega (arith, large)) in
      (g.0, g.2, enforce_limit-fits s limit g.0 large g.2)

  -- The chunks from a number on.
  abbrev Published : ℕ → Option (List Chunk) → Type 0
  Published i o = (cs : List Chunk) × (o ≡ some cs) × Numbered i cs × FitAll cs

  chunks_from-Published : (i : ℕ) (ps : List Piece) → Published i (chunks_from t lang limit i ps)
  unfolding chunks_from
  chunks_from-Published i [] = ([], refl, tt, tt)
  chunks_from-Published i (p ∷ ps) =
      let (ss, e, f) = cut-Fits (text_of lang p) in
      let c = chunks_of-Numbered p i ss f in
      let (ds, d, n, a) = chunks_from-Published (i + length ss) ps in
      (
        chunks_of t lang p i ss ++ ds,
        rw (e, d),
        Numbered-append i (chunks_of t lang p i ss) ds c.0
            (subst (λ k. Numbered (i + k) ds) (sym c.2) n),
        All-append (λ (x : Chunk). fits limit x.text ≡ true) (chunks_of t lang p i ss) ds c.1 a,
      )

  -- For a limit of 66 tokens or more, chunking a file always ends with chunks, which are numbered
  -- from 0 in order, and of which every one fits the embedder.
  pub chunk-fits :
      (body : Text)
      → (cs : List Chunk) × (chunk t body lang limit ≡ some cs)
        × Numbered 0 cs
        × All (λ (c : Chunk). fits limit c.text ≡ true) cs
  unfolding chunk
  chunk-fits body = elim (Bool-cases (is_empty (normalize_chunk_text t.nfc body))) [
    | inl e ↦ ([], rw e, tt, tt)
    | inr e ↦
        let (cs, d, n, a) =
          chunks_from-Published 0 (pieces_of t (normalize_chunk_text t.nfc body) lang) in
        (cs, rw (e, d), n, a)
  ]
