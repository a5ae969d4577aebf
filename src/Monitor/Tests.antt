-- ===== src/Monitor/Tests.antt =====
-- Runs of the monitor, and the theorems of this folder at concrete inputs.
use klams.Common.{◌≡◌, refl, true, false, ◌++◌, none, some, List, [], ◌∷◌, Text, codes, text_eq}
use klams.Monitor.{
  active, inactive, up, version_changed, PreviousState, PollObservation, ServiceEventPayload, diff,
  apply, default_state, Poll, poll_unit, polls,
}
use klams.Monitor.Events.{replay}

abbrev api : Text
api = codes "klams"

-- The `down` of the service itself is lost, and the `up` of its recovery is not.
abbrev before_recovery : List Poll
before_recovery =
    record { unit = api; result = some active; published = true }
    ∷ record { unit = api; result = none; published = true }
    ∷ record { unit = api; result = some inactive; published = false }
    ∷ []

abbrev recovery : List Poll
recovery =
    record { unit = codes "db"; result = some active; published = false }
    ∷ record { unit = api; result = some active; published = true }
    ∷ []

abbrev event_of : Text → ServiceEventPayload
event_of u = record { service = u; event = up; host = codes "kai"; version = none; port = none }

posted :
    (polls (codes "kai") (before_recovery ++ recovery) (λ unit. default_state)).1
    ≡ event_of api ∷ event_of api ∷ []
unfolding polls poll_unit diff apply text_eq
posted = refl

-- After a lost `down` alone, the reader still takes the service to be up.
lost_down :
    let r = polls (codes "kai") before_recovery (λ unit. default_state) in
    (replay api none r.1 ≡ some active) × ((r.0 api).state ≡ some inactive)
unfolding replay polls poll_unit diff apply text_eq
lost_down = (refl, refl)

abbrev before : PreviousState
before = record { state = some active; version = some (codes "1") }

abbrev now : PollObservation
now = record {
  service = api;
  host = codes "kai";
  current_state = active;
  current_version = some (codes "2");
}

upgraded :
    diff before now
    ≡ some (record (event_of api) { event = version_changed; version = some (codes "2") })
unfolding diff text_eq
upgraded = refl
