-- ===== src/EmbedLimit.antt =====
-- crates/klams-types/src/embed_limit.rs: the estimate of a text's tokens, and the size gate.
-- Texts are lists of code points; `usize` does not wrap at the lengths of texts.
pub mod Estimate
mod Tests
use klams.Common.{
  ℕ, suc, ◌+◌, ◌-◌, ◌*◌, ◌/◌, max, Bool, true, false, Option, none, some, [], ◌∷◌, Result, ok, err,
  if◌then◌else◌, ltb, leb, length, Text, is_whitespace,
}

abbrev pub special_tokens : ℕ
special_tokens = 2

abbrev pub ascii_chars_per_token : ℕ
ascii_chars_per_token = 3

-- The loop of `estimate_tokens`: the number of ASCII characters, and of the others.
pub count_ascii : Text → ℕ
count_ascii [] = 0
count_ascii (c ∷ s) = (if ltb c 128 then 1 else 0) + count_ascii s

pub count_non_ascii : Text → ℕ
count_non_ascii [] = 0
count_non_ascii (c ∷ s) = (if ltb c 128 then 0 else 1) + count_non_ascii s

-- `text.split_whitespace().count()`; the flag says whether the last character was in a word.
pub count_words : Bool → Text → ℕ
count_words in_word [] = 0
count_words in_word (c ∷ s) =
    let rest = count_words (if is_whitespace c then false else true) s in
    if is_whitespace c then rest else if in_word then rest else suc rest

pub div_ceil : ℕ → ℕ → ℕ
div_ceil a b = (a + (b - 1)) / b

unfoldable pub estimate_tokens : Text → ℕ
unfolding count_ascii count_non_ascii count_words div_ceil
estimate_tokens s =
    let density = div_ceil (count_ascii s) ascii_chars_per_token + count_non_ascii s in
    special_tokens + max density (count_words false s)

pub record Oversize : Type 0 where
  pub limit_tokens : ℕ
  pub estimated_tokens : ℕ
  pub submitted_chars : ℕ
  pub max_chars : ℕ

pub record EmbedLimit : Type 0 where
  pub max_input_tokens : ℕ

-- `EmbedLimit::new`
pub new : ℕ → EmbedLimit
new n = record { max_input_tokens = max n (special_tokens + 1) }

unfoldable pub max_chars : EmbedLimit → ℕ
max_chars l = (l.max_input_tokens - special_tokens) * ascii_chars_per_token

pub check : EmbedLimit → Text → Result Oversize Unit
unfolding max_chars
check l s =
    if leb (estimate_tokens s) l.max_input_tokens
    then ok tt
    else err (record {
      limit_tokens = l.max_input_tokens;
      estimated_tokens = estimate_tokens s;
      submitted_chars = length s;
      max_chars = max_chars l;
    })

abbrev is_ok : Result Oversize Unit → Bool
is_ok (ok u) = true
is_ok (err e) = false

unfoldable pub fits : EmbedLimit → Text → Bool
unfolding check
fits l s = is_ok (check l s)

pub certainly_exceeds : EmbedLimit → Text → Option Oversize
unfolding max_chars
certainly_exceeds l s =
    let floor = special_tokens + count_words false s in
    if leb floor l.max_input_tokens
    then none
    else some (record {
      limit_tokens = l.max_input_tokens;
      estimated_tokens = floor;
      submitted_chars = length s;
      max_chars = max_chars l;
    })
