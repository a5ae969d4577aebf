-- ===== src/EmbedLimit/Estimate.antt =====
-- Bounds of the estimate, and how the two gates relate.
use klams.Common.{
  ◌+◌, ◌≤◌, ◌<◌, ◌≡◌, refl, Bool, true, false, some, [], ◌∷◌, err, arith, length, Text,
}
use klams.EmbedLimit.{
  count_ascii, count_non_ascii, count_words, div_ceil, estimate_tokens, Oversize, EmbedLimit,
  max_chars, check, fits, certainly_exceeds,
}

counts : (s : Text) → count_ascii s + count_non_ascii s ≡ length s
unfolding count_ascii count_non_ascii
counts [] = refl
counts (c ∷ s) = ground (arith, counts s)

count_words-le : (b : Bool) (s : Text) → count_words b s ≤ length s
unfolding count_words
count_words-le b [] = omega arith
count_words-le b (c ∷ s) = ground (arith, count_words-le true s, count_words-le false s)

-- The estimate charges each character one token at most.
pub estimate_tokens-le : (s : Text) → estimate_tokens s ≤ length s + 2
unfolding estimate_tokens div_ceil
estimate_tokens-le s = omega (arith, counts s, count_words-le false s)

-- So a text with two characters fewer than the limit fits.
pub short-fits : (l : EmbedLimit) (s : Text) → length s + 2 ≤ l.max_input_tokens → fits l s ≡ true
unfolding fits check
short-fits l s h = ground (arith, estimate_tokens-le s)

-- The final gate never refuses what the estimate accepts: `certainly_exceeds` reports a text only
-- if `check` refuses it, with no more tokens than `check` estimates and the other numbers alike.
pub certainly_exceeds-check :
    (l : EmbedLimit) (s : Text) (o : Oversize)
    → certainly_exceeds l s ≡ some o
    → (e : Oversize) × (check l s ≡ err e)
      × (o.estimated_tokens ≤ e.estimated_tokens)
      × (l.max_input_tokens < o.estimated_tokens)
      × (o ≡ record e { estimated_tokens = o.estimated_tokens })
unfolding certainly_exceeds check estimate_tokens
certainly_exceeds-check l s o h = (
  record {
    limit_tokens = l.max_input_tokens;
    estimated_tokens = estimate_tokens s;
    submitted_chars = length s;
    max_chars = max_chars l;
  },
  ground (arith, h),
  ground (arith, h),
  ground (arith, h),
  ground (arith, h),
)
