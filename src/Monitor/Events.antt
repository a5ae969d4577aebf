-- ===== src/Monitor/Events.antt =====
-- crates/klams-monitor/src/state.rs: what a reader of the events learns of a unit's state.
use klams.Common.{
  ◌≡◌, refl, inl, inr, Bool, true, false, ◌&&◌, ◌||◌, any, is_some, ◌++◌, Option, some, List, [],
  ◌∷◌, if◌then◌else◌, Text, text_eq, Bool-cases,
}
use klams.Monitor.{
  UnitState, active, inactive, ServiceEventKind, up, down, restart, version_changed,
  ServiceEventPayload, Poll,
}

-- What an event says of the state of its unit.
abbrev pub after_event : ServiceEventKind → Option UnitState → Option UnitState
after_event up st = some active
after_event down st = some inactive
after_event restart st = st
after_event version_changed st = st

-- The state of a unit that a reader of the events knows.
unfoldable pub replay : Text → Option UnitState → List ServiceEventPayload → Option UnitState
replay u st [] = st
replay u st (e ∷ es) = replay u (if text_eq u e.service then after_event e.event st else st) es

-- The state that the last successful poll of a unit saw.
unfoldable pub last_seen : Text → Option UnitState → List Poll → Option UnitState
last_seen u s [] = s
last_seen u s (p ∷ ps) =
    last_seen u (if text_eq u p.unit && is_some p.result then p.result else s) ps

-- An event that says whether its unit is up.
abbrev pub moves : ServiceEventKind → Bool
moves up = true
moves down = true
moves restart = false
moves version_changed = false

abbrev pub tells : Text → ServiceEventPayload → Bool
tells u e = text_eq u e.service && moves e.event

pub forgets :
    (u : Text) (s t : Option UnitState) (es : List ServiceEventPayload)
    → any (tells u) es ≡ true
    → replay u s es ≡ replay u t es
unfolding replay
forgets u s t [] h = cc
forgets u s t (e ∷ es) h = elim (Bool-cases (text_eq u e.service)) [
  | inl q ↦ rw q (by_kind e.event (λ k. forgets u s t es k) (rw q at h))
  | inr q ↦ rw q (forgets u s t es (rw q at h))
]
  where
    by_kind :
        (k : ServiceEventKind)
        → (any (tells u) es ≡ true → replay u s es ≡ replay u t es)
        → (moves k || any (tells u) es) ≡ true
        → replay u (after_event k s) es ≡ replay u (after_event k t) es
    by_kind up again h = refl
    by_kind down again h = refl
    by_kind restart again h = again h
    by_kind version_changed again h = again h

pub replay-append :
    (u : Text) (es fs : List ServiceEventPayload) (s : Option UnitState)
    → replay u s (es ++ fs) ≡ replay u (replay u s es) fs
unfolding replay
replay-append u [] fs s = refl
replay-append u (e ∷ es) fs s =
    replay-append u es fs (if text_eq u e.service then after_event e.event s else s)
