-- ===== src/Monitor/Replay.antt =====
-- What a reader of the posted events knows of each unit's state, with publishes that fail.
use klams.Common.{◌≡◌, refl, ◌↔◌, true, Option, none, some, Text, text_eq}
use klams.Monitor.{
  UnitState, active, inactive, PreviousState, PollObservation, changed_version, diff, Previous,
  Poll, diff_version,
}

abbrev Versionless : Previous → Type 0
Versionless prev = (u : Text) → (prev u).version ≡ none

-- The publishes of a unit succeed.
abbrev pub Reaches : Text → Poll → Type 0
Reaches u p = text_eq u p.unit ≡ true → p.published ≡ true

-- A poll posts nothing exactly when the state is the previous one and no known version changed.
pub diff-none_iff :
    (prev : PreviousState) (obs : PollObservation)
    → (diff prev obs ≡ none) ↔ (
        (prev.state ≡ some obs.current_state)
        × (changed_version prev.version obs.current_version ≡ none))
unfolding diff
diff-none_iff prev obs =
    go prev.state obs.current_state (changed_version prev.version obs.current_version)
  where
    go :
        (old : Option UnitState) (st : UnitState) (c : Option Text)
        → (diff_version
              (record { state = old; version = prev.version })
              (record obs { current_state = st })
              c
            ≡ none)
          ↔ ((old ≡ some st) × (c ≡ none))
    go old st (some c) = ((λ h. cc), (λ h. cc (h.1)))
    go none active none = ((λ h. cc), (λ h. cc (h.0)))
    go none inactive none = ((λ h. cc), (λ h. cc (h.0)))
    go (some active) active none = ((λ h. (refl, refl)), (λ h. refl))
    go (some active) inactive none = ((λ h. cc), (λ h. cc (h.0)))
    go (some inactive) active none = ((λ h. cc), (λ h. cc (h.0)))
    go (some inactive) inactive none = ((λ h. (refl, refl)), (λ h. refl))
