-- ===== src/Maintenance.antt =====
-- crates/klams-types/src/maintenance.rs and crates/klams-api/src/middleware/maintenance.rs: the
-- flag that a backup raises, and the requests that pass while it is up.
-- Instants are nanoseconds; the two shared fields of the flag are the fields of a record.
pub mod Window
mod Tests
use klams.Common.{
  ℕ, ◌-◌, ◌/◌, max, Bool, true, false, not, ◌||◌, Option, none, some, List, [], ◌∷◌, if◌then◌else◌,
  is_some, Text, codes, text_eq,
}
use klams.Common.Split.{strip_prefix, split_once}

pub record RunningSnapshot : Type 0 where
  pub run_id : Text
  pub started_at : ℕ
  pub expected_end_at : Option ℕ

pub record MaintenanceState : Type 0 where
  pub active : Bool
  pub inflight : Option RunningSnapshot

-- `MaintenanceState::new`
abbrev pub new_state : MaintenanceState
new_state = record { active = false; inflight = none }

unfoldable pub mark_active : MaintenanceState → RunningSnapshot → MaintenanceState
mark_active s snapshot = record { active = true; inflight = some snapshot }

unfoldable pub clear : MaintenanceState → MaintenanceState
clear s = record { active = false; inflight = none }

pub record MaintenanceSnapshot : Type 0 where
  pub active : Bool
  pub run_id : Option Text
  pub started_at : Option ℕ
  pub expected_end_at : Option ℕ

abbrev snapshot_of : Bool → Option RunningSnapshot → MaintenanceSnapshot
snapshot_of active none = record {
  active = active;
  run_id = none;
  started_at = none;
  expected_end_at = none;
}
snapshot_of active (some s) = record {
  active = active;
  run_id = some s.run_id;
  started_at = some s.started_at;
  expected_end_at = s.expected_end_at;
}

-- `MaintenanceSnapshot::from_state`
pub from_state : MaintenanceState → MaintenanceSnapshot
from_state s = snapshot_of s.active s.inflight

-- What the middleware reads of a request; `critical` is the `CriticalWrite` extension.
pub record Request : Type 0 where
  pub is_get : Bool
  pub critical : Bool
  pub path : Text

abbrev pub critical_tail : Option (Text × Text) → Bool
critical_tail none = false
critical_tail (some (id, tail)) = text_eq tail (codes "promote") || text_eq tail (codes "discard")

abbrev pub after_prefix : Option Text → Bool
after_prefix none = false
after_prefix (some rest) = critical_tail (split_once b'/' rest)

pub is_critical_write_path : Text → Bool
is_critical_write_path path = after_prefix (strip_prefix (codes "/memory/dissents/") path)

pub is_pass_through : Request → Bool
is_pass_through req =
    if req.is_get
    then true
    else if req.critical
    then true
    else if text_eq req.path (codes "/memory/search") || text_eq req.path (codes "/memory/context")
    then true
    else is_critical_write_path req.path

abbrev pub retry_after_floor_seconds : ℕ
retry_after_floor_seconds = 30

abbrev whole_seconds : Option ℕ → ℕ → ℕ
whole_seconds none now = 0
whole_seconds (some end) now = (end - now) / 1000000000

abbrev retry_of : Option RunningSnapshot → ℕ → ℕ
retry_of none now = retry_after_floor_seconds
retry_of (some s) now = max (whole_seconds s.expected_end_at now) retry_after_floor_seconds

-- A time that is past leaves no seconds, as does `num_seconds().max(0)`.
unfoldable pub retry_after_seconds : MaintenanceState → ℕ → ℕ
retry_after_seconds s now = retry_of s.inflight now

-- The middleware: `next.run`, or 503 with the seconds of `Retry-After`.
pub data Outcome : Type 0 where
  runs : Outcome
  rejected : ℕ → Outcome

pub maintenance_check : MaintenanceState → ℕ → Request → Outcome
unfolding is_pass_through is_critical_write_path retry_after_seconds
maintenance_check s now req =
    if not s.active || is_pass_through req then runs else rejected (retry_after_seconds s now)
