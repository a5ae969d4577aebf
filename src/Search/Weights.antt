-- ===== src/Search/Weights.antt =====
-- crates/klams-core/src/provenance.rs, and `knowledge_weight` of retrieval.rs: what a knowledge hit
-- weighs in the fusion. `powf` and the clock are parameters: `seconds_since` is the age in seconds
-- of a time, as a float.
use Prim.Native.Nat.{Ordering}
use klams.Common.{
  ℕ, Bool, true, false, not, ◌||◌, Option, none, some, if◌then◌else◌, is_some, Text, codes, text_eq,
}
use klams.Facts.{Source, user, controller, task, agent_proposal}
use klams.Floats.{F32}
use klams.Search.{KnowledgeItem, is_text}

pub data ProvenanceTier : Type 0 where
  hand_authored machine_extracted bulk : ProvenanceTier

abbrev pub by_agent : Option Text → ProvenanceTier
by_agent none = hand_authored
by_agent (some agent) =
    if text_eq agent (codes "klams-mind") then machine_extracted else hand_authored

abbrev pub by_source : Source → Option Text → ProvenanceTier
by_source agent_proposal author_agent = by_agent author_agent
by_source user author_agent = hand_authored
by_source task author_agent = bulk
by_source controller author_agent = bulk

unfoldable pub classify : Source → Option Text → Bool → ProvenanceTier
classify source author_agent has_machine =
    if has_machine then bulk else by_source source author_agent

abbrev pub is_lt : Option Ordering → Bool
is_lt (some Ordering.lt) = true
is_lt (some Ordering.eq) = false
is_lt (some Ordering.gt) = false
is_lt none = false

abbrev is_ge : Option Ordering → Bool
is_ge (some Ordering.lt) = false
is_ge (some Ordering.eq) = true
is_ge (some Ordering.gt) = true
is_ge none = false

module _ (f : F32) where
  -- `max`, of a number first: a NaN second is left out.
  abbrev pub max_of : f.Float → f.Float → f.Float
  max_of a b = if is_lt (f.partial_cmp a b) then b else a

  abbrev pub at_least : f.Float → f.Float → Bool
  at_least a b = is_ge (f.partial_cmp a b)

  abbrev pub hundredths : ℕ → f.Float
  hundredths n = f.div (f.of_nat n) (f.of_nat 100)

  unfoldable pub boost_threshold : f.Float → f.Float
  boost_threshold top_raw = max_of (hundredths 45) (f.mul (hundredths 82) top_raw)

  unfoldable pub weight : ProvenanceTier → f.Float
  weight hand_authored = f.of_nat 2
  weight machine_extracted = hundredths 150
  weight bulk = f.of_nat 1

  module _ (powf : f.Float → f.Float → f.Float) (seconds_since : ℕ → f.Float) where
    unfoldable pub volatility_demotion : Option Text → f.Float → f.Float
    volatility_demotion volatility age_days =
        if not (is_text volatility (codes "volatile")) || at_least (f.of_nat 7) age_days
        then f.of_nat 1
        else max_of (hundredths 25)
            (powf (hundredths 50) (f.div (f.sub age_days (f.of_nat 7)) (f.of_nat 30)))

    unfoldable pub knowledge_weight : KnowledgeItem → Text → Bool → f.Float
    knowledge_weight item author_agent boost_eligible =
        let tier = classify item.source (some author_agent) (is_some item.machine) in
        let tier_w = if boost_eligible then weight tier else f.of_nat 1 in
        let age_days = f.div (seconds_since item.created_at) (f.of_nat 86400) in
        f.mul tier_w (volatility_demotion item.volatility age_days)
