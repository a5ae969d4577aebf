-- ===== src/Markdown.antt =====
-- crates/klams-scanner/src/chunk.rs: fences, headings, and `markdown_blocks`.
-- Texts are lists of code points.
pub mod Content
mod Tests
use klams.Common.{
  ℕ, zero, suc, ◌+◌, Bool, true, false, not, ◌&&◌, ◌||◌, Option, none, some, List, [], ◌∷◌, ◌++◌,
  map, if◌then◌else◌, ltb, leb, ◌==◌, length, drop, any, all, is_empty, Text, is_whitespace, trim,
  trim_start, lines,
}

pub indent_width : Text → ℕ
indent_width [] = 0
indent_width (c ∷ s) =
    let rest = indent_width s in if c == b' ' then 1 + rest else if c == 9 then 4 + rest else 0

-- `t.chars().take_while(|&c| c == ch).count()`
pub run_length : ℕ → Text → ℕ
run_length ch [] = 0
run_length ch (c ∷ s) = let rest = run_length ch s in if c == ch then suc rest else 0

pub record Fence : Type 0 where
  pub mark : ℕ
  pub size : ℕ

abbrev fence_at : Text → Text → Option Fence
fence_at [] t = none
fence_at (ch ∷ rest) t =
    let n = run_length ch t in
    if not (ch == b'`') && not (ch == b'~')
    then none
    else if ltb n 3
    then none
    else if ch == b'`' && any (λ c. c == b'`') (drop n t)
    then none
    else some (record { mark = ch; size = n })

pub fence_open : Text → Option Fence
unfolding indent_width run_length
fence_open line =
    let t = trim_start line in if leb 4 (indent_width line) then none else fence_at t t

pub fence_close : Text → Fence → Bool
unfolding indent_width run_length
fence_close line open_fence =
    let t = trim_start line in
    let n = run_length open_fence.mark t in
    if leb 4 (indent_width line)
    then false
    else leb open_fence.size n && all is_whitespace (drop n t)

pub record Heading : Type 0 where
  pub level : ℕ
  pub title : Text

abbrev starts_blank : Text → Bool
starts_blank [] = false
starts_blank (c ∷ s) = c == b' ' || c == 9

pub md_heading : Text → Option Heading
unfolding indent_width run_length
md_heading line =
    let t = trim_start line in
    let hashes = run_length b'#' t in
    let rest = drop hashes t in
    if leb 4 (indent_width line)
    then none
    else if hashes == 0 || ltb 6 hashes
    then none
    else if not (starts_blank rest)
    then none
    else some (record { level = hashes; title = trim rest })

-- A heading breadcrumb, or none, with a body.
pub record Block : Type 0 where
  pub path : Option Text
  pub body : Text

-- `while stack.last().is_some_and(|l| l >= level) { stack.pop(); }`, on a stack kept top first.
pub pop_to : ℕ → List Heading → List Heading
pop_to level [] = []
pop_to level (h ∷ stack) =
    let rest = pop_to level stack in if leb level h.level then rest else h ∷ stack

-- The titles joined by " > ", from the bottom of the stack.
pub breadcrumb : List Heading → Text
breadcrumb [] = []
breadcrumb (h ∷ []) = h.title
breadcrumb (h ∷ g ∷ stack) = breadcrumb (g ∷ stack) ++ (b' ' ∷ b'>' ∷ b' ' ∷ h.title)

-- The variables of `markdown_blocks`, but `blocks`, which `blocks_of` builds.
pub record State : Type 0 where
  pub stack : List Heading
  pub body : Text
  pub body_path : Option Text
  pub fence : Option Fence

-- `if !body.is_empty() { body.push('\n'); } body.push_str(line);`
pub push_line : Text → Text → Text
push_line body line = if is_empty body then line else body ++ 10 ∷ line

-- What one line does: the block that it ends, if any, and the new state.
pub record Step : Type 0 where
  pub ended : Option Block
  pub next : State

pub in_fence : State → Text → Fence → Step
unfolding push_line
in_fence st line open_fence = record {
  ended = none;
  next = record st {
    fence = if fence_close line open_fence then none else some open_fence;
    body = push_line st.body line;
  };
}

pub at_heading : State → Heading → Step
unfolding pop_to
at_heading st h =
    let stack = h ∷ pop_to h.level st.stack in
    record {
      ended =
          if is_empty (trim st.body)
          then none
          else some (record { path = st.body_path; body = st.body });
      next = record {
        stack = stack;
        body = [];
        body_path = some (breadcrumb stack);
        fence = st.fence;
      };
    }

abbrev heading_step : State → Text → Option Heading → Step
heading_step st line none = record {
  ended = none;
  next = record st { body = push_line st.body line };
}
heading_step st line (some h) = at_heading st h

abbrev plain_step : State → Text → Option Fence → Step
plain_step st line none = heading_step st line (md_heading line)
plain_step st line (some f) = record {
  ended = none;
  next = record st { fence = some f; body = push_line st.body line };
}

abbrev any_step : State → Text → Option Fence → Step
any_step st line none = plain_step st line (fence_open line)
any_step st line (some f) = in_fence st line f

-- The body of the loop over the lines.
pub step_line : State → Text → Step
unfolding push_line at_heading in_fence
step_line st line = any_step st line st.fence

abbrev pub emit : Option Block → List Block → List Block
emit none bs = bs
emit (some b) bs = b ∷ bs

pub blocks_of : State → List Text → List Block
blocks_of st [] =
    if is_empty (trim st.body) then [] else record { path = st.body_path; body = st.body } ∷ []
blocks_of st (line ∷ more) = let r = step_line st line in emit r.ended (blocks_of r.next more)

abbrev pub start : State
start = record { stack = []; body = []; body_path = none; fence = none }

pub markdown_blocks : Text → List Block
unfolding blocks_of
markdown_blocks norm = blocks_of start (lines norm)
