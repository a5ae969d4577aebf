-- ===== src/Pack/Tests.antt =====
-- Runs of the packing, and the theorems of this folder at concrete inputs.
use klams.Common.{
  ℕ, ◌≡◌, refl, true, Option, none, some, List, [], ◌∷◌, ◌++◌, if◌then◌else◌, Text, codes, text_eq,
  is_whitespace, trim,
}
use klams.Markdown.{Block}
use klams.Markdown.Content.{weigh_blocks}
use klams.Pack.{
  split_blank, paragraphs, plain_blocks, push_piece, flush, pack_step, pack_from, oldest_first,
  pack_blocks,
}
use klams.Pack.Content.{pack_blocks-weight}

abbrev block : Option Text → Text → Block
block path body = record { path = path; body = body }

abbrev two_paths : List Block
two_paths =
    block (some (codes "A")) (codes "x ")
    ∷ block (some (codes "A")) (codes "y")
    ∷ block (some (codes "B")) (codes "z")
    ∷ []

merged :
    pack_blocks two_paths
    ≡ block (some (codes "A")) (codes "x" ++ 10 ∷ 10 ∷ codes "y")
      ∷ block (some (codes "B")) (codes "z")
      ∷ []
unfolding pack_blocks pack_from pack_step flush push_piece oldest_first trim text_eq
merged = refl

two_paragraphs :
    plain_blocks (codes "x" ++ 10 ∷ 10 ∷ 10 ∷ codes "y")
    ≡ block none (codes "x") ∷ block none (codes "y") ∷ []
unfolding plain_blocks paragraphs split_blank trim
two_paragraphs = refl

-- Each character that is no white space counts once.
abbrev ink : Option Text → ℕ → ℕ
ink p c = if is_whitespace c then 0 else 1

ink-blank : (p : Option Text) (c : ℕ) → is_whitespace c ≡ true → ink p c ≡ 0
ink-blank p c h = rw h

pack_blocks-weight_example :
    weigh_blocks ink ink-blank (pack_blocks two_paths) ≡ weigh_blocks ink ink-blank two_paths
unfolding trim
pack_blocks-weight_example = pack_blocks-weight ink ink-blank two_paths (refl, (refl, (refl, tt)))
