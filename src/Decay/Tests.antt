-- ===== src/Decay/Tests.antt =====
-- Runs of a decay tick, and the theorems of this folder at concrete inputs.
use klams.Common.{ℕ, ◌≡◌, refl, false, some, List, [], ◌∷◌, map, arith}
use klams.Common.Sort.{sort_by, insert}
use klams.Floats.{milli}
use klams.Decay.{
  Row, DecayConfig, task_fact, update, walk, tick_once, select_decay_batch, lambda_for,
  default_lambda_for, score, drain_into_batch,
}
use klams.Decay.Walk.{tick_once-all}

abbrev config : ℕ → DecayConfig milli
config n = record { batch_size = n; lambda = λ t. some 2 }

abbrev fact : ℕ → Row milli
fact i = record { id = i; fact_type = task_fact; age_seconds = 500000 }

abbrev three : List (Row milli)
three = fact 1 ∷ fact 4 ∷ fact 6 ∷ []

in_batches_of_two :
    tick_once milli (config 2) three (λ after. false) (9 ∷ 7 ∷ 9 ∷ [])
    ≡ (7 ∷ 9 ∷ [], some (record { updates = (1, 500) ∷ (4, 500) ∷ (6, 500) ∷ []; failed = false }))
unfolding tick_once walk select_decay_batch lambda_for default_lambda_for score drain_into_batch
    sort_by insert
in_batches_of_two = refl

tick_once-all_example :
    (tick_once milli (config 2) three (λ after. false) []).1
    ≡ some (record { updates = map (update milli (config 2)) three; failed = false })
tick_once-all_example =
    tick_once-all milli (config 2) three [] (omega arith, (omega arith, (omega arith, tt)))
      (omega arith)
