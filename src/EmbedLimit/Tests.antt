-- ===== src/EmbedLimit/Tests.antt =====
-- The theorems of this folder at concrete inputs.
use klams.Common.{◌≤◌, ◌<◌, ◌≡◌, refl, err, codes}
use klams.EmbedLimit.{EmbedLimit, Oversize, check, certainly_exceeds, estimate_tokens, count_words}
use klams.EmbedLimit.Estimate.{certainly_exceeds-check}

abbrev tiny : EmbedLimit
tiny = record { max_input_tokens = 4 }

abbrev reported : Oversize
reported = record { limit_tokens = 4; estimated_tokens = 5; submitted_chars = 5; max_chars = 6 }

estimate : estimate_tokens (codes "a b c") ≡ 5
unfolding estimate_tokens
estimate = refl

certainly_exceeds-check_example :
    (e : Oversize) × (check tiny (codes "a b c") ≡ err e)
    × (5 ≤ e.estimated_tokens)
    × (4 < reported.estimated_tokens)
    × (reported ≡ record e { estimated_tokens = 5 })
unfolding certainly_exceeds count_words
certainly_exceeds-check_example = certainly_exceeds-check tiny (codes "a b c") reported refl
