-- ===== src/Dedupe/Tests.antt =====
-- A run of the collapse, and the theorem of this folder at a concrete input.
use klams.Common.{ℕ, ◌≡◌, refl, Option, none, some, List, [], ◌∷◌, Text, codes, text_eq}
use klams.Dedupe.{Out, survivor, push_copy, collapse_from, collapse_duplicates}
use klams.Dedupe.Groups.{grouped, collapse_duplicates-grouped}

-- An id, and the hash of its content.
abbrev Hit : Type 0
Hit = ℕ × Option Text

abbrev hash : Hit → Option Text
hash h = h.1

abbrev id_of : Hit → ℕ
id_of h = h.0

abbrev hits : List Hit
hits =
    (1, some (codes "a"))
    ∷ (2, some (codes "b"))
    ∷ (3, none)
    ∷ (4, some (codes "a"))
    ∷ (5, none)
    ∷ (6, some (codes "a"))
    ∷ []

abbrev collapsed : Out Hit ℕ
collapsed =
    ((1, some (codes "a")), 4 ∷ 6 ∷ [])
    ∷ ((2, some (codes "b")), [])
    ∷ ((3, none), [])
    ∷ ((5, none), [])
    ∷ []

two_copies : collapse_duplicates Hit ℕ hash id_of hits ≡ collapsed
unfolding collapse_duplicates collapse_from survivor push_copy text_eq
two_copies = refl

collapse_duplicates-grouped_example :
    collapse_duplicates Hit ℕ hash id_of hits ≡ grouped Hit ℕ hash id_of [] hits
collapse_duplicates-grouped_example = collapse_duplicates-grouped Hit ℕ hash id_of hits
