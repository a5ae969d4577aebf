-- ===== src/Copies/Without.antt =====
-- A list of copies without those at a place.
use klams.Common.{
  Bool, true, false, not, Option, none, some, List, [], ◌∷◌, any, length, length-filter_by-le, In,
  here, there, Text, ◌==◌, ==_iff, ◌<◌, ◌≡◌, refl, Bool-cases, inl, inr, if◌then◌else◌, arith,
}
use klams.Copies.{CopyEntry}
use klams.Copies.Calls.{is_at, remaining_of}

abbrev pub kept : List CopyEntry → Option (List CopyEntry)
kept [] = none
kept (c ∷ cs) = some (c ∷ cs)

-- A point that has a copy at the place keeps its other copies, or is gone if there are none.
abbrev pub without : Text → Text → Option (List CopyEntry) → Option (List CopyEntry)
without host source_file none = none
without host source_file (some cs) =
    if any (is_at host source_file) cs then kept (remaining_of host source_file cs) else some cs

remaining_all :
    (h f : Text) (cs : List CopyEntry) → any (is_at h f) cs ≡ false → remaining_of h f cs ≡ cs
remaining_all h f [] e = refl
remaining_all h f (c ∷ cs) e = elim (Bool-cases (is_at h f c)) [
  | inl x ↦ let k : true ≡ false = rw x at e in cc
  | inr x ↦ let k : any (is_at h f) cs ≡ false = rw x at e in rw (x, remaining_all h f cs k) refl
]

remaining_fewer :
    (h f : Text) (cs : List CopyEntry)
    → any (is_at h f) cs ≡ true
    → length (remaining_of h f cs) < length cs
remaining_fewer h f [] e = cc
remaining_fewer h f (c ∷ cs) e = elim (Bool-cases (is_at h f c)) [
  | inl x ↦
      let k = length-filter_by-le (λ (d : CopyEntry). not (is_at h f d)) cs in
      rw x (omega (arith, k))
  | inr x ↦
      let k : any (is_at h f) cs ≡ true = rw x at e in
      let i = remaining_fewer h f cs k in rw x (omega (arith, i))
]

pub same_length :
    (h f : Text) (cs : List CopyEntry)
    → (length (remaining_of h f cs) == length cs) ≡ not (any (is_at h f) cs)
same_length h f cs = elim (Bool-cases (any (is_at h f) cs)) [
  | inr e ↦ rw (e, remaining_all h f cs e) ((==_iff (length cs) (length cs)).1 refl)
  | inl e ↦ elim (Bool-cases (length (remaining_of h f cs) == length cs)) [
    | inr n ↦ rw (n, e) refl
    | inl y ↦
        let l = remaining_fewer h f cs e in
        let k = (==_iff (length (remaining_of h f cs)) (length cs)).0 y in
        let no : ⊥ = omega (arith, l, k) in elim no [ ]
  ]
]

pub any_In :
    (h f : Text) (cs : List CopyEntry)
    → any (is_at h f) cs ≡ true
    → (c : CopyEntry) × (In c cs × (is_at h f c ≡ true))
any_In h f [] e = cc
any_In h f (c ∷ cs) e = elim (Bool-cases (is_at h f c)) [
  | inl x ↦ (c, (here refl, x))
  | inr x ↦
      let k : any (is_at h f) cs ≡ true = rw x at e in
      let (d, (i, y)) = any_In h f cs k in (d, (there i, y))
]

-- A candidate loses its copies at the place, and any other point stays.
abbrev pub lost_if : Text → Text → Bool → Option (List CopyEntry) → Option (List CopyEntry)
lost_if host source_file true o = without host source_file o
lost_if host source_file false o = o
