-- ===== src/Windows/Tests.antt =====
-- Runs of the splitters, and the theorems of this folder at concrete inputs.
use klams.Common.{ℕ, zero, suc, ◌≡◌, refl, true, some, List, [], ◌∷◌, arith, Text, codes, All}
use klams.EmbedLimit.{EmbedLimit, estimate_tokens, fits, max_chars}
use klams.Windows.{overlap_of, split_on_char_window, shrink, enforce_limit}
use klams.Windows.Coverage.{glue}
use klams.Windows.Limit.{enforce_limit-glue, enforce_limit-fits}

abbrev repeat : ℕ → Text
repeat zero = []
repeat (suc n) = 0x4e00 ∷ repeat n

three_pieces :
    split_on_char_window (codes "abcdefghij") 5 ≡ codes "abcde" ∷ codes "efghi" ∷ codes "ij" ∷ []
unfolding split_on_char_window
three_pieces = refl

abbrev narrow : EmbedLimit
narrow = record { max_input_tokens = 70 }

enforce_limit-glue_example :
    (pieces : List Text) × (window : ℕ) × (enforce_limit (repeat 100) narrow ≡ some pieces)
    × (glue (overlap_of window) pieces ≡ repeat 100)
enforce_limit-glue_example = enforce_limit-glue (repeat 100) narrow (omega arith)

two_pieces : enforce_limit (repeat 100) narrow ≡ some (repeat 64 ∷ repeat 52 ∷ [])
unfolding enforce_limit shrink split_on_char_window fits max_chars estimate_tokens
two_pieces = refl

enforce_limit-fits_example : All (λ p. fits narrow p ≡ true) (repeat 64 ∷ repeat 52 ∷ [])
enforce_limit-fits_example =
    enforce_limit-fits (repeat 100) narrow (repeat 64 ∷ repeat 52 ∷ []) (omega arith) two_pieces
