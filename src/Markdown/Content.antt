-- ===== src/Markdown/Content.antt =====
-- `markdown_blocks` keeps every line that is no heading, under the breadcrumb in force there.
use klams.Common.{
  ℕ, ◌+◌, ◌≡◌, refl, ap, ◌∙◌, inl, inr, true, Option, none, some, List, [], ◌∷◌, if◌then◌else◌,
  is_empty, Text, is_whitespace, trim, lines, arith, sum_by, sum_by-append, Bool-cases,
  Option-cases,
}
use klams.Common.Blank.{sum_by-blank}
use klams.Markdown.{
  Fence, fence_open, fence_close, Heading, md_heading, Block, State, pop_to, breadcrumb, push_line,
  in_fence, at_heading, step_line, blocks_of, emit, markdown_blocks,
}

-- The breadcrumb of a stack of headings.
abbrev pub path_of : List Heading → Option Text
path_of [] = none
path_of (h ∷ stack) = some (breadcrumb (h ∷ stack))

-- A line is body, with the fence that is open after it, or a heading outside every fence.
data Kind : Type 0 where
  body_line : Option Fence → Kind
  heading_line : Heading → Kind

abbrev titled : Option Heading → Kind
titled none = body_line none
titled (some h) = heading_line h

abbrev outside : Text → Option Fence → Kind
outside l none = titled (md_heading l)
outside l (some f) = body_line (some f)

abbrev kind : Option Fence → Text → Kind
kind none l = outside l (fence_open l)
kind (some f) l = body_line (if fence_close l f then none else some f)

-- The lines that are no heading, each with the breadcrumb in force: a heading replaces those of
-- its level or deeper.
pub labelled : List Heading → Option Fence → List Text → List (Option Text × Text)
labelled stack f [] = []
labelled stack f (l ∷ ls) = elim (kind f l) [
  | body_line f' ↦ (path_of stack, l) ∷ labelled stack f' ls
  | heading_line h ↦ labelled (h ∷ pop_to h.level stack) none ls
]

module _ (g : Option Text → ℕ → ℕ)
    (blank : (p : Option Text) (c : ℕ) → is_whitespace c ≡ true → g p c ≡ 0) where
  -- The weight of a text under a breadcrumb.
  abbrev pub weight : Option Text → Text → ℕ
  weight p s = sum_by (g p) s

  abbrev pub weigh_blocks : List Block → ℕ
  weigh_blocks = sum_by (λ b. weight b.path b.body)

  abbrev pub weigh_lines : List (Option Text × Text) → ℕ
  weigh_lines = sum_by (λ l. weight l.0 l.1)

  weight-push_line :
      (p : Option Text) (body line : Text)
      → weight p (push_line body line) ≡ weight p body + weight p line
  unfolding push_line
  weight-push_line p [] line = omega arith
  weight-push_line p (c ∷ body) line =
      omega (arith, sum_by-append (g p) (c ∷ body) (10 ∷ line), blank p 10 refl)

  abbrev state : List Heading → Text → Option Fence → State
  state stack body f = record { stack = stack; body = body; body_path = path_of stack; fence = f }

  heading-weight :
      (stack : List Heading) (body : Text) (h : Heading) (bs : List Block)
      → weigh_blocks (emit (at_heading (state stack body none) h).ended bs)
        ≡ weight (path_of stack) body + weigh_blocks bs
  unfolding at_heading
  heading-weight stack body h bs = elim (Bool-cases (is_empty (trim body))) [
    | inl b ↦ rw b (omega (arith, sum_by-blank (g (path_of stack)) (blank (path_of stack)) body b))
    | inr b ↦ rw b
  ]

  blocks_of-weight :
      (ls : List Text) (stack : List Heading) (body : Text) (f : Option Fence)
      → weigh_blocks (blocks_of (state stack body f) ls)
        ≡ weight (path_of stack) body + weigh_lines (labelled stack f ls)
  unfolding blocks_of labelled step_line
  blocks_of-weight [] stack body f = elim (Bool-cases (is_empty (trim body))) [
    | inl b ↦ rw b (omega (arith, sum_by-blank (g (path_of stack)) (blank (path_of stack)) body b))
    | inr b ↦ rw b (omega arith)
  ]
  blocks_of-weight (l ∷ ls) stack body (some f) =
      unfold in_fence in
      omega (
        arith,
        weight-push_line (path_of stack) body l,
        blocks_of-weight ls stack (push_line body l) (if fence_close l f then none else some f),
      )
  blocks_of-weight (l ∷ ls) stack body none =
      let next_blocks : (h : Heading)
          → md_heading l ≡ some h
          → weigh_blocks (blocks_of (at_heading (state stack body none) h).next ls)
            ≡ weigh_lines (labelled (h ∷ pop_to h.level stack) none ls) =
        λ h o.
          unfold at_heading in
          omega (arith, blocks_of-weight ls (h ∷ pop_to h.level stack) [] none) in
      elim (Option-cases (fence_open l)) [
        | inr (f, o) ↦
            rw (o, labelled)
              (omega (
                arith,
                weight-push_line (path_of stack) body l,
                blocks_of-weight ls stack (push_line body l) (some f),
              ))
        | inl n ↦ elim (Option-cases (md_heading l)) [
          | inr (h, o) ↦
              rw (n, o, labelled)
                (heading-weight stack body h
                    (blocks_of (at_heading (state stack body none) h).next ls)
                  ∙ ap (λ n. weight (path_of stack) body + n) (next_blocks h o))
          | inl m ↦
              rw (n, m, labelled)
                (omega (
                  arith,
                  weight-push_line (path_of stack) body l,
                  blocks_of-weight ls stack (push_line body l) none,
                ))
        ]
      ]

  -- For every weight of characters under a breadcrumb that gives white space none, the blocks of
  -- a text weigh what its lines weigh that are no heading, each under the breadcrumb in force at
  -- it: no such line is lost, doubled or moved under another breadcrumb, in or out of a fence.
  pub markdown_blocks-weight :
      (norm : Text)
      → weigh_blocks (markdown_blocks norm) ≡ weigh_lines (labelled [] none (lines norm))
  unfolding markdown_blocks
  markdown_blocks-weight norm = omega (arith, blocks_of-weight (lines norm) [] [] none)
