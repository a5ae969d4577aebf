-- ===== src/Dedupe.antt =====
-- crates/klams-core/src/dedupe.rs: duplicate contents of a ranked list collapse into the first.
-- The hash map from keys to places is an association list.
pub mod Groups
pub mod Places
mod Tests
use klams.Common.{
  ℕ, zero, suc, Option, none, some, List, [], ◌∷◌, ◌++◌, if◌then◌else◌, length, Text, text_eq,
}

module _ (T C : Type 0) where
  abbrev pub Out : Type 0
  Out = List (T × List C)

  -- `survivor_of.get(&k)`
  unfoldable pub survivor : Text → List (Text × ℕ) → Option ℕ
  survivor k [] = none
  survivor k ((j, pos) ∷ more) =
      let rest = survivor k more in if text_eq j k then some pos else rest

  -- `out[pos].1.push(copy)`
  unfoldable pub push_copy : ℕ → C → Out → Out
  push_copy pos c [] = []
  push_copy zero c ((t, cs) ∷ out) = (t, cs ++ c ∷ []) ∷ out
  push_copy (suc pos) c ((t, cs) ∷ out) = (t, cs) ∷ push_copy pos c out

  module _ (key : T → Option Text) (as_copy : T → C) where
    abbrev placed : T → Text → Option ℕ → List (Text × ℕ) → Out → List (Text × ℕ) × Out
    placed item k (some pos) survivors out = (survivors, push_copy pos (as_copy item) out)
    placed item k none survivors out = ((k, length out) ∷ survivors, out ++ (item, []) ∷ [])

    abbrev keyed : T → Option Text → List (Text × ℕ) → Out → List (Text × ℕ) × Out
    keyed item none survivors out = (survivors, out ++ (item, []) ∷ [])
    keyed item (some k) survivors out = placed item k (survivor k survivors) survivors out

    -- The loop over the items.
    unfoldable pub collapse_from : List (Text × ℕ) → Out → List T → Out
    unfolding survivor push_copy
    collapse_from survivors out [] = out
    collapse_from survivors out (item ∷ items) =
        let r = keyed item (key item) survivors out in collapse_from r.0 r.1 items

    unfoldable pub collapse_duplicates : List T → Out
    unfolding collapse_from
    collapse_duplicates items = collapse_from [] [] items
