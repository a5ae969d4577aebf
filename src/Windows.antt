-- ===== src/Windows.antt =====
-- crates/klams-scanner/src/chunk.rs: the overlapping windows that an oversized text is cut into,
-- and the gate that cuts a text until every piece fits the embedder.
pub mod Coverage
pub mod Limit
mod Tests
use klams.Common.{
  ℕ, zero, suc, ◌+◌, ◌-◌, ◌/◌, min, max, Bool, true, false, Option, none, some, List, [], ◌∷◌,
  if◌then◌else◌, ltb, leb, ◌==◌, length, take, drop, all, Text,
}
use klams.EmbedLimit.{EmbedLimit, max_chars, fits}

abbrev pub target_chars : ℕ
target_chars = 800

abbrev pub overlap_chars : ℕ
overlap_chars = 200

abbrev pub min_chars : ℕ
min_chars = 64

-- The `while start < chars.len()` loop of both splitters, on fuel.
pub windows : (fuel window step start : ℕ) → Text → List Text
windows zero window step start s = []
windows (suc fuel) window step start s =
    let end = min (start + window) (length s) in
    let piece = take (end - start) (drop start s) in
    let rest = windows fuel window step (start + step) s in
    if ltb start (length s) then (if end == length s then piece ∷ [] else piece ∷ rest) else []

abbrev pub overlap_of : ℕ → ℕ
overlap_of window = min overlap_chars (window / 4)

pub split_on_char_window : Text → ℕ → List Text
unfolding windows
split_on_char_window s window =
    let step = max (window - overlap_of window) 1 in
    if leb (length s) window then s ∷ [] else windows (length s) window step 0 s

unfoldable pub slide_windows : Text → List Text
unfolding windows
slide_windows s =
    if leb (length s) target_chars
    then s ∷ []
    else windows (length s) target_chars (target_chars - overlap_chars) 0 s

-- The halving loop of `enforce_limit`; `none` if the fuel runs out.
pub shrink : ℕ → EmbedLimit → Text → ℕ → Option (List Text)
shrink zero l s window = none
shrink (suc fuel) l s window =
    let pieces = split_on_char_window s window in
    let smaller = shrink fuel l s (window / 2) in
    if all (fits l) pieces
    then some pieces
    else if ltb (window / 2) min_chars
    then some (split_on_char_window s min_chars)
    else smaller

pub enforce_limit : Text → EmbedLimit → Option (List Text)
enforce_limit s l = if fits l s then some (s ∷ []) else shrink (suc (max_chars l)) l s (max_chars l)
