-- ===== src/Windows/Limit.antt =====
-- `enforce_limit` ends, loses nothing, and its pieces fit the embedder.
use klams.Common.{
  ℕ, zero, suc, ◌/◌, ◌≤◌, ◌<◌, ◌≡◌, refl, sym, ap, ◌∙◌, ◌⊎◌, inl, inr, true, some, List, [], ◌∷◌,
  arith, length, all, All, All-mono, Text, Bool-cases, ltb, subst, unwrap_or,
}
use mathlib.Core.List.{append-nil}
use klams.Auth.Config.{all-All}
use klams.EmbedLimit.{EmbedLimit, max_chars, fits}
use klams.EmbedLimit.Estimate.{short-fits}
use klams.Windows.{overlap_of, split_on_char_window, shrink, enforce_limit}
use klams.Windows.Coverage.{glue, split_on_char_window-glue, split_on_char_window-length}

-- What the loop returns: windows of some positive size, all of which fit, or those of 64.
record Outcome (l : EmbedLimit) (s : Text) (pieces : List Text) : Type 0 where
  window : ℕ
  positive : 0 < window
  cut : pieces ≡ split_on_char_window s window
  small : (All (λ p. fits l p ≡ true) pieces) ⊎ (window ≡ 64)

shrink-Outcome :
    (fuel : ℕ) (l : EmbedLimit) (s : Text) (window : ℕ)
    → 0 < window
    → window < fuel
    → (pieces : List Text) × (shrink fuel l s window ≡ some pieces) × Outcome l s pieces
unfolding shrink
shrink-Outcome zero l s window p f = absurd (omega arith)
shrink-Outcome (suc fuel) l s window p f =
    elim (Bool-cases (all (fits l) (split_on_char_window s window))) [
      | inl e ↦ (
        split_on_char_window s window,
        rw e,
        record {
          window = window;
          positive = p;
          cut = refl;
          small = inl ((all-All (fits l) _).0 e);
        },
      )
      | inr e ↦ elim (Bool-cases (ltb (window / 2) 64)) [
        | inl low ↦ (
          split_on_char_window s 64,
          rw (e, low),
          record { window = 64; positive = omega arith; cut = refl; small = inr refl },
        )
        | inr more ↦
            let r =
              shrink-Outcome fuel l s (window / 2) (ground (arith, more)) (ground (arith, more)) in
            (r.0, rw (e, more) r.1, r.2)
      ]
    ]

-- The halving loop always ends with a result: for a limit of three tokens or more there are pieces
-- and a window size of which they are the glue-able parts of the text, nothing lost or added.
pub enforce_limit-glue :
    (s : Text) (l : EmbedLimit)
    → 3 ≤ l.max_input_tokens
    → (pieces : List Text) × (window : ℕ) × (enforce_limit s l ≡ some pieces)
      × (glue (overlap_of window) pieces ≡ s)
unfolding enforce_limit max_chars
enforce_limit-glue s l h = elim (Bool-cases (fits l s)) [
  | inl e ↦ (s ∷ [], 1, rw e, append-nil s)
  | inr e ↦
      let (pieces, q, o) =
        shrink-Outcome (suc (max_chars l)) l s (max_chars l) (omega arith) (omega arith) in
      (pieces, o.window, rw e q, rw o.cut (split_on_char_window-glue s o.window o.positive))
]

-- For a limit of 66 tokens or more, every piece that comes out fits the limit.
pub enforce_limit-fits :
    (s : Text) (l : EmbedLimit) (pieces : List Text)
    → 66 ≤ l.max_input_tokens
    → enforce_limit s l ≡ some pieces
    → All (λ p. fits l p ≡ true) pieces
unfolding enforce_limit max_chars
enforce_limit-fits s l pieces h e = elim (Bool-cases (fits l s)) [
  | inl f ↦
      let q : some (s ∷ []) ≡ some pieces = rw f at e in
      subst AllFit (ap (λ o. unwrap_or o []) q) (f, tt)
  | inr f ↦
      let (ps, q, o) =
        shrink-Outcome (suc (max_chars l)) l s (max_chars l) (omega arith) (omega arith) in
      let same : some ps ≡ some pieces = sym q ∙ (rw f at e) in
      subst AllFit (ap (λ o. unwrap_or o []) same) (elim o.small [
        | inl all_fit ↦ all_fit
        | inr w ↦
            All-mono (λ p. length p ≤ 64) (λ p. fits l p ≡ true) ps
              (λ p k. short-fits l p (omega (arith, k, h)))
              (rw (o.cut, w) (split_on_char_window-length s 64))
      ])
]
  where
    AllFit : List Text → Type 0
    AllFit ps = All (λ p. fits l p ≡ true) ps
