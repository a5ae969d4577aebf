-- ===== src/Markdown/Tests.antt =====
-- Runs of `markdown_blocks`, and the theorem of this folder at a concrete input.
use klams.Common.{
  ℕ, ◌≡◌, refl, true, Option, none, some, List, [], ◌∷◌, ◌++◌, if◌then◌else◌, Text, codes, lines,
  is_whitespace, trim,
}
use klams.Markdown.{
  Block, markdown_blocks, blocks_of, step_line, in_fence, at_heading, push_line, fence_open,
  fence_close, md_heading, pop_to, breadcrumb, run_length, indent_width,
}
use klams.Markdown.Content.{weigh_blocks, weigh_lines, labelled, markdown_blocks-weight}

abbrev doc : Text
doc = codes "# A" ++ 10 ∷ codes "x" ++ 10 ∷ codes "## B" ++ 10 ∷ codes "```" ++ 10 ∷ codes "# c"

abbrev blocks : List Block
blocks =
    record { path = some (codes "A"); body = codes "x" }
    ∷ record { path = some (codes "A > B"); body = codes "```" ++ 10 ∷ codes "# c" }
    ∷ []

nested : markdown_blocks doc ≡ blocks
unfolding markdown_blocks blocks_of step_line in_fence at_heading push_line fence_open fence_close
    md_heading pop_to breadcrumb run_length indent_width lines trim
nested = refl

-- Each character that is no white space counts once.
abbrev ink : Option Text → ℕ → ℕ
ink p c = if is_whitespace c then 0 else 1

ink-blank : (p : Option Text) (c : ℕ) → is_whitespace c ≡ true → ink p c ≡ 0
ink-blank p c h = rw h

markdown_blocks-weight_example :
    weigh_blocks ink ink-blank (markdown_blocks doc)
    ≡ weigh_lines ink ink-blank (labelled [] none (lines doc))
markdown_blocks-weight_example = markdown_blocks-weight ink ink-blank doc
