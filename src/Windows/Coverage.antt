-- ===== src/Windows/Coverage.antt =====
-- Windows lose nothing: dropping each overlap and joining the pieces gives the text again.
use klams.Common.{
  ℕ, zero, suc, ◌+◌, ◌-◌, ◌≤◌, ◌<◌, ◌≡◌, sym, ap, ◌∙◌, inl, inr, min, max, false, List, [], ◌∷◌,
  ◌++◌, arith, length, take, drop, All, Text, Bool-cases, leb, ◌==◌, take_all, drop-drop,
  drop-take-append, take-append-drop, length-take, length-drop, ==_iff, lt→ltb,
}
use mathlib.Core.List.{append-nil}
use klams.Windows.{windows, overlap_of, split_on_char_window, slide_windows}

-- The pieces after the first, each without its overlap with the one before.
abbrev pub tails : ℕ → List Text → Text
tails o [] = []
tails o (p ∷ ps) = drop o p ++ tails o ps

abbrev pub glue : ℕ → List Text → Text
glue o [] = []
glue o (p ∷ ps) = p ++ tails o ps

module _ (window step o : ℕ) (s : Text) (positive : 0 < step) (split : step + o ≡ window) where
  windows-tails :
      (fuel start : ℕ)
      → start + o < length s
      → length s ≤ fuel + start
      → tails o (windows fuel window step start s) ≡ drop (start + o) s
  unfolding windows
  windows-tails zero start h f = absurd (omega arith)
  windows-tails (suc fuel) start h f =
      elim (Bool-cases (min (start + window) (length s) == length s)) [
        | inl e ↦
            let whole : min (start + window) (length s) - start ≡ length s - start =
              omega (arith, (==_iff _ (length s)).0 e) in
            let all_of : take (length s - start) (drop start s) ≡ drop start s =
              take_all _ (drop start s) (omega (arith, length-drop start s)) in
            rw (lt→ltb start (length s) (omega arith), e, whole, all_of, append-nil)
              (drop-drop o start s)
        | inr e ↦
            let within : start + window < length s = ground (arith, e) in
            let full : min (start + window) (length s) - start ≡ window = omega (arith, within) in
            let next : start + step + o ≡ start + window = omega (arith, split) in
            let rest : tails o (windows fuel window step (start + step) s)
                ≡ drop window (drop start s) =
              windows-tails fuel (start + step) (omega arith) (omega arith)
              ∙ ap (λ n. drop n s) next
              ∙ sym (drop-drop window start s) in
            rw (lt→ltb start (length s) (omega arith), e, full, rest)
              (drop-take-append o window (drop start s) (omega arith) ∙ drop-drop o start s)
      ]

  -- A text longer than the window is the glued windows.
  pub windows-glue :
      (fuel : ℕ) → window < length s → length s ≤ fuel → glue o (windows fuel window step 0 s) ≡ s
  unfolding windows
  windows-glue zero h f = absurd (omega arith)
  windows-glue (suc fuel) h f =
      let more : (min (0 + window) (length s) == length s) ≡ false = ground arith in
      let full : min (0 + window) (length s) - 0 ≡ window = omega arith in
      let next : 0 + step + o ≡ window = omega arith in
      let rest : tails o (windows fuel window step (0 + step) s) ≡ drop window s =
        windows-tails fuel (0 + step) (omega arith) (omega arith) ∙ ap (λ n. drop n s) next in
      rw (lt→ltb 0 (length s) (omega arith), more, full, rest) (take-append-drop window s)

-- For a window of one character or more, nothing is lost or added: the pieces, joined without
-- their overlaps, are the text.
pub split_on_char_window-glue :
    (s : Text) (window : ℕ)
    → 0 < window
    → glue (overlap_of window) (split_on_char_window s window) ≡ s
unfolding split_on_char_window
split_on_char_window-glue s window h = elim (Bool-cases (leb (length s) window)) [
  | inl e ↦ rw e (append-nil s)
  | inr e ↦ rw e (
      windows-glue window (max (window - overlap_of window) 1) (overlap_of window) s (omega arith)
        (omega arith) (length s) (ground (arith, e)) (omega arith))
]

-- The windows of an oversized block of 800 characters, with 200 of overlap, lose nothing either.
pub slide_windows-glue : (s : Text) → glue 200 (slide_windows s) ≡ s
unfolding slide_windows
slide_windows-glue s = elim (Bool-cases (leb (length s) 800)) [
  | inl e ↦ rw e (append-nil s)
  | inr e ↦ rw e (
      windows-glue 800 600 200 s (omega arith) (omega arith) (length s) (ground (arith, e))
        (omega arith))
]

pub windows-length :
    (window step fuel start : ℕ) (s : Text)
    → All (λ p. length p ≤ window) (windows fuel window step start s)
unfolding windows
windows-length window step zero start s = tt
windows-length window step (suc fuel) start s =
    let l = length-take (min (start + window) (length s) - start) (drop start s) in
    ground (arith, l, windows-length window step fuel (start + step) s)

pub split_on_char_window-length :
    (s : Text) (window : ℕ) → All (λ p. length p ≤ window) (split_on_char_window s window)
unfolding split_on_char_window
split_on_char_window-length s window =
    ground (arith, windows-length window (max (window - overlap_of window) 1) (length s) 0 s)
