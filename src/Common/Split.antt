-- ===== src/Common/Split.antt =====
-- `str::strip_prefix` and `str::split_once`, with what they find.
use klams.Common.Tests.{if◌then◌else◌, ◌==◌, ==_iff, Bool-cases}
use klams.Common.Lists.{All}
use klams.Common.Texts.{Text}
use Prim.Native.Nat.{ℕ}
use mathlib.Core.Path.{◌≡◌, ◌∙◌}
use mathlib.Core.Logic.{◌≢◌, ◌↔◌, inl, inr}
use mathlib.Core.Option.{Option, none, some}
use mathlib.Core.List.{[], ◌∷◌, ◌++◌}

unfoldable pub strip_prefix : Text → Text → Option Text
strip_prefix [] s = some s
strip_prefix (p ∷ ps) [] = none
strip_prefix (p ∷ ps) (c ∷ s) = let rest = strip_prefix ps s in if p == c then rest else none

abbrev pair : Text → Text → Option (Text × Text)
pair a b = some (a, b)

abbrev onto_first : ℕ → Option (Text × Text) → Option (Text × Text)
onto_first x none = none
onto_first x (some (a, b)) = some (x ∷ a, b)

unfoldable pub split_once : ℕ → Text → Option (Text × Text)
split_once c [] = none
split_once c (x ∷ s) =
    let rest = split_once c s in if x == c then some ([], s) else onto_first x rest

pub strip_prefix_iff : (p s r : Text) → (strip_prefix p s ≡ some r) ↔ (s ≡ p ++ r)
unfolding strip_prefix
strip_prefix_iff [] s r = ((λ h. cc), (λ h. cc))
strip_prefix_iff (p ∷ ps) [] r = ((λ h. cc), (λ h. cc))
strip_prefix_iff (p ∷ ps) (c ∷ s) r = elim (Bool-cases (p == c)) [
  | inl e ↦
      let q : p ≡ c = (==_iff p c).0 e in
      rw e
        ((λ h. let k = (strip_prefix_iff ps s r).0 h in cc), (λ h. (strip_prefix_iff ps s r).1 cc))
  | inr e ↦ rw e ((λ h. cc), (λ h. let q : p ≡ c = cc in let t = (==_iff p c).1 q in cc))
]

module _ (c x : ℕ) (s b : Text) where
  split_found :
      x ≡ c → (a : Text) → (pair [] s ≡ pair a b) ↔ ((x ∷ s ≡ a ++ c ∷ b) × All (λ y. y ≢ c) a)
  split_found q [] = ((λ h. (let k : s ≡ b = cc in cc, tt)), (λ h. let k : s ≡ b = cc (h.0) in cc))
  split_found q (y ∷ a) = ((λ h. cc), (λ h. absurd (h.1.0 (let k = h.0 in cc))))

  split_later :
      x ≢ c
      → (r : Option (Text × Text))
      → ((a : Text) → (r ≡ some (a, b)) ↔ ((s ≡ a ++ c ∷ b) × All (λ y. y ≢ c) a))
      → (a : Text) → (onto_first x r ≡ some (a, b)) ↔ ((x ∷ s ≡ a ++ c ∷ b) × All (λ y. y ≢ c) a)
  split_later n none ih [] = ((λ h. cc), (λ h. absurd (n (let k = h.0 in cc))))
  split_later n none ih (y ∷ a) =
      ((λ h. cc), (λ h. let k : none ≡ pair a b = (ih a).1 (let k = h.0 in cc, h.1.1) in cc))
  split_later n (some (u, v)) ih [] = ((λ h. cc), (λ h. absurd (n (let k = h.0 in cc))))
  split_later n (some (u, v)) ih (y ∷ a) = (
    (λ h.
        let q : x ≡ y = cc in
        let k : (s ≡ a ++ c ∷ b) × All (λ y. y ≢ c) a = (ih a).0 cc in
        let k0 = k.0 in (cc, ((λ z. n (q ∙ z)), k.1))),
    (λ h.
        let h0 = h.0 in
        let k : pair u v ≡ pair a b = (ih a).1 (cc, h.1.1) in let q : x ≡ y = cc in cc),
  )

pub split_once_iff :
    (c : ℕ) (s a b : Text)
    → (split_once c s ≡ some (a, b)) ↔ ((s ≡ a ++ c ∷ b) × All (λ x. x ≢ c) a)
unfolding split_once
split_once_iff c [] [] b = ((λ h. cc), (λ h. cc (h.0)))
split_once_iff c [] (y ∷ a) b = ((λ h. cc), (λ h. cc (h.0)))
split_once_iff c (x ∷ s) a b = elim (Bool-cases (x == c)) [
  | inl e ↦ rw e (split_found c x s b ((==_iff x c).0 e) a)
  | inr e ↦ rw e (
      split_later c x s b (λ q. let t = (==_iff x c).1 q in cc) (split_once c s)
        (λ d. split_once_iff c s d b) a)
]
