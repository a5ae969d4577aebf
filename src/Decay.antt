-- ===== src/Decay.antt =====
-- crates/klams-core/src/decay.rs, crates/klams-types/src/decay.rs and the query of
-- crates/klams-store/src/postgres.rs: one tick of the task that decays the weights of facts.
-- The table is the list of the facts that are not deleted, by id; ids are numbers, the nil UUID 0.
pub mod Walk
mod Tests
use klams.Common.{
  ℕ, zero, suc, ◌+◌, min, max, Bool, true, false, Option, none, some, List, [], ◌∷◌, ◌++◌, map,
  if◌then◌else◌, ltb, leb, ◌==◌, length, take, filter_by, is_empty, unwrap_or,
}
use klams.Common.Sort.{sort_by}
use klams.Floats.{F32, or_equal, is_greater}

pub data FactType : Type 0 where
  user_fact task_fact env_fact : FactType

pub record DecayRow (S : Type 0) : Type 0 where
  pub id : ℕ
  pub fact_type : FactType
  pub age_seconds : S

-- What a tick has written when it ends, and whether a call to the store ended it.
pub record Walked (S : Type 0) : Type 0 where
  pub updates : List (ℕ × S)
  pub failed : Bool

abbrev dedup_from : ℕ → List ℕ → List ℕ
dedup_from x [] = x ∷ []
dedup_from x (y ∷ ys) = let rest = dedup_from y ys in if x == y then rest else x ∷ rest

abbrev dedup : List ℕ → List ℕ
dedup [] = []
dedup (x ∷ xs) = dedup_from x xs

-- The ids that `drain_into_batch` bumps, in one call if there are any.
pub drain_into_batch : List ℕ → List ℕ
drain_into_batch bumps = dedup (sort_by leb bumps)

module _ (f : F32) where
  open f use {Float, partial_cmp, of_nat, mul, div}

  abbrev pub Row : Type 0
  Row = DecayRow Float

  pub record DecayConfig : Type 0 where
    pub batch_size : ℕ
    pub lambda : FactType → Option Float

  -- `f32::max(self, 0.0)`, on numbers that are no NaN.
  abbrev at_least_zero : Float → Float
  at_least_zero x = if is_greater (or_equal (partial_cmp (of_nat 0) x)) then of_nat 0 else x

  pub score : (base lambda age_seconds : Float) → Float
  score base lambda age_seconds =
      div base (f.add (of_nat 1) (mul lambda (at_least_zero age_seconds)))

  -- `1e-6` and `1e-9`
  pub default_lambda_for : FactType → Float
  default_lambda_for task_fact = f.recip 1000000
  default_lambda_for user_fact = f.recip 1000000000
  default_lambda_for env_fact = f.recip 1000000000

  pub lambda_for : DecayConfig → FactType → Float
  unfolding default_lambda_for
  lambda_for cfg t = unwrap_or (cfg.lambda t) (default_lambda_for t)

  -- The limit is clamped to 1..=5000.
  pub select_decay_batch : List Row → Option ℕ → ℕ → List Row
  select_decay_batch facts after limit =
      take (min (max limit 1) 5000) (filter_by (λ r. ltb (unwrap_or after 0) r.id) facts)

  abbrev pub update : DecayConfig → Row → ℕ × Float
  update cfg r = (r.id, score (of_nat 1) (lambda_for cfg r.fact_type) r.age_seconds)

  abbrev pub last_id : List Row → Option ℕ
  last_id [] = none
  last_id (r ∷ []) = some r.id
  last_id (r ∷ s ∷ rows) = last_id (s ∷ rows)

  abbrev then_walk : List (ℕ × Float) → Option (Walked Float) → Option (Walked Float)
  then_walk us none = none
  then_walk us (some w) = some (record w { updates = us ++ w.updates })

  -- The loop over the batches, on fuel; `fails` says after which id a call to the store fails.
  pub walk : DecayConfig → List Row → (Option ℕ → Bool) → ℕ → Option ℕ → Option (Walked Float)
  unfolding select_decay_batch lambda_for score
  walk cfg facts fails zero after = none
  walk cfg facts fails (suc fuel) after =
      let size = max cfg.batch_size 1 in
      let rows = select_decay_batch facts after size in
      let rest = walk cfg facts fails fuel (last_id rows) in
      if fails after
      then some (record { updates = []; failed = true })
      else if is_empty rows
      then some (record { updates = []; failed = false })
      else if ltb (length rows) size
      then some (record { updates = map (update cfg) rows; failed = false })
      else then_walk (map (update cfg) rows) rest

  -- `tick_once`: the bumps that are flushed first, whose failure is only logged, and the walk.
  pub tick_once :
      DecayConfig → List Row → (Option ℕ → Bool) → List ℕ → List ℕ × Option (Walked Float)
  unfolding walk drain_into_batch
  tick_once cfg facts fails bumps =
      (drain_into_batch bumps, walk cfg facts fails (suc (length facts)) none)
