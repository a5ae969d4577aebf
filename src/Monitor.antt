-- ===== src/Monitor.antt =====
-- crates/klams-monitor/src/state.rs and the poll loop of main.rs: which event a poll of a unit posts.
-- The `HashMap` of previous states is a function, as a missing entry reads as the default.
pub mod Events
pub mod Replay
mod Tests
use klams.Common.{
  ℕ, Bool, true, false, not, Option, none, some, List, [], ◌∷◌, if◌then◌else◌, Text, text_eq,
}

pub data UnitState : Type 0 where
  active inactive : UnitState

pub record PreviousState : Type 0 where
  pub state : Option UnitState
  pub version : Option Text

pub data ServiceEventKind : Type 0 where
  up down restart version_changed : ServiceEventKind

pub record ServiceEventPayload : Type 0 where
  pub service : Text
  pub event : ServiceEventKind
  pub host : Text
  pub version : Option Text
  pub port : Option ℕ

pub record PollObservation : Type 0 where
  pub service : Text
  pub host : Text
  pub current_state : UnitState
  pub current_version : Option Text

-- The new version, if both are known and differ.
abbrev pub changed_version : Option Text → Option Text → Option Text
changed_version (some p) (some c) = if text_eq p c then none else some c
changed_version (some p) none = none
changed_version none c = none

abbrev pub state_event : Option UnitState → UnitState → Option ServiceEventKind
state_event none active = some up
state_event (some inactive) active = some up
state_event none inactive = some down
state_event (some active) inactive = some down
state_event (some active) active = none
state_event (some inactive) inactive = none

abbrev pub payload :
    PollObservation → Option Text → Option ServiceEventKind → Option ServiceEventPayload
payload obs version none = none
payload obs version (some kind) = some (record {
  service = obs.service;
  event = kind;
  host = obs.host;
  version = version;
  port = none;
})

abbrev pub diff_version : PreviousState → PollObservation → Option Text → Option ServiceEventPayload
diff_version prev obs (some c) = payload obs (some c) (some version_changed)
diff_version prev obs none =
    payload obs obs.current_version (state_event prev.state obs.current_state)

pub diff : PreviousState → PollObservation → Option ServiceEventPayload
diff prev obs = diff_version prev obs (changed_version prev.version obs.current_version)

abbrev or_kept : Option Text → Option Text → Option Text
or_kept none kept = kept
or_kept (some v) kept = some v

pub apply : PreviousState → PollObservation → PreviousState
apply prev obs = record {
  state = some obs.current_state;
  version = or_kept obs.current_version prev.version;
}

abbrev pub Previous : Type 0
Previous = Text → PreviousState

abbrev pub default_state : PreviousState
default_state = record { state = none; version = none }

abbrev pub insert : Text → PreviousState → Previous → Previous
insert unit st prev u = if text_eq u unit then st else prev u

-- One poll of a unit: `none` if `is_active` fails, and whether `publish` would succeed. The loop
-- passes no version.
pub record Poll : Type 0 where
  pub unit : Text
  pub result : Option UnitState
  pub published : Bool

abbrev pub observation : Text → Text → UnitState → PollObservation
observation host unit st = record {
  service = unit;
  host = host;
  current_state = st;
  current_version = none;
}

abbrev pub publish : Bool → Option ServiceEventPayload → Option ServiceEventPayload
publish succeeds e = if succeeds then e else none

abbrev pub polled :
    Text → Text → Bool → Option UnitState → Previous → Previous × Option ServiceEventPayload
polled host unit published none prev = (prev, none)
polled host unit published (some st) prev =
    let obs = observation host unit st in
    (insert unit (apply (prev unit) obs) prev, publish published (diff (prev unit) obs))

-- The body of the loop over the units, and the event that reached the service. A failed publish
-- drops its event, and the state advances all the same.
pub poll_unit : Text → Poll → Previous → Previous × Option ServiceEventPayload
unfolding diff apply
poll_unit host p prev = polled host p.unit p.published p.result prev

abbrev pub log : Option ServiceEventPayload → List ServiceEventPayload → List ServiceEventPayload
log none rest = rest
log (some e) rest = e ∷ rest

-- A run of polls: the states at its end, and the events that reached the service, in order.
pub polls : Text → List Poll → Previous → Previous × List ServiceEventPayload
unfolding poll_unit
polls host [] prev = (prev, [])
polls host (p ∷ ps) prev =
    let r = poll_unit host p prev in let rest = polls host ps r.0 in (rest.0, log r.1 rest.1)
