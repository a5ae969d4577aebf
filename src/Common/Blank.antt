-- ===== src/Common/Blank.antt =====
-- Weights of texts that give white space no weight: what trimming and joining leave unchanged.
use klams.Common.Tests.{Bool-cases}
use klams.Common.Lists.{sum_by, is_empty}
use klams.Common.Texts.{Text, is_whitespace, trim_start, trim_end, trim}
use Prim.Native.Nat.{ℕ}
use mathlib.Core.Path.{◌≡◌, refl, ◌∙◌}
use mathlib.Core.Logic.{inl, inr}
use mathlib.Core.Bool.{true, ◌&&◌}
use mathlib.Core.List.{[], ◌∷◌}
use native.Mathlib.Omega.{arith}

module _ (h : ℕ → ℕ) (blank : (c : ℕ) → is_whitespace c ≡ true → h c ≡ 0) where
  sum_by-trim_start : (s : Text) → sum_by h (trim_start s) ≡ sum_by h s
  unfolding trim_start
  sum_by-trim_start [] = refl
  sum_by-trim_start (c ∷ s) = elim (Bool-cases (is_whitespace c)) [
    | inl e ↦ rw e (omega (arith, blank c e, sum_by-trim_start s))
    | inr e ↦ rw e
  ]

  sum_by-trim_end : (s : Text) → sum_by h (trim_end s) ≡ sum_by h s
  unfolding trim_end
  sum_by-trim_end [] = refl
  sum_by-trim_end (c ∷ s) = elim (Bool-cases (is_empty (trim_end s) && is_whitespace c)) [
    | inl e ↦
        let z : sum_by h (trim_end s) ≡ 0 = ground (arith, e) in
        let w : is_whitespace c ≡ true = ground (arith, e) in
        rw e (omega (arith, z, blank c w, sum_by-trim_end s))
    | inr e ↦ rw e (omega (arith, sum_by-trim_end s))
  ]

  pub sum_by-trim : (s : Text) → sum_by h (trim s) ≡ sum_by h s
  unfolding trim
  sum_by-trim s = sum_by-trim_end (trim_start s) ∙ sum_by-trim_start s

  -- A text that is blank when trimmed weighs nothing.
  pub sum_by-blank : (s : Text) → is_empty (trim s) ≡ true → sum_by h s ≡ 0
  sum_by-blank s e =
      let z : sum_by h (trim s) ≡ 0 = ground (arith, e) in omega (arith, z, sum_by-trim s)
