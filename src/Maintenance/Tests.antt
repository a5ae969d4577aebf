-- ===== src/Maintenance/Tests.antt =====
-- Runs of the maintenance middleware, and the theorems of this folder at concrete inputs.
use klams.Common.{◌≡◌, refl, ◌↔◌, ◌⊎◌, true, false, none, some, Text, codes, text_eq}
use klams.Common.Split.{strip_prefix, split_once}
use klams.Maintenance.{
  MaintenanceState, RunningSnapshot, new_state, mark_active, clear, Request, is_critical_write_path,
  is_pass_through, retry_after_seconds, runs, rejected, maintenance_check, from_state,
}
use klams.Maintenance.Window.{CriticalPath, maintenance_check-runs}

abbrev snapshot : RunningSnapshot
snapshot = record { run_id = codes "r1"; started_at = 0; expected_end_at = some 90500000000 }

abbrev busy : MaintenanceState
busy = record { active = true; inflight = some snapshot }

abbrev post : Text → Request
post path = record { is_get = false; critical = false; path = path }

marked : mark_active new_state snapshot ≡ busy
unfolding mark_active
marked = refl

shown : (from_state (clear busy)).run_id ≡ none
unfolding from_state clear
shown = refl

dissent : maintenance_check busy 0 (post (codes "/memory/dissents/7/discard")) ≡ runs
unfolding maintenance_check is_pass_through is_critical_write_path strip_prefix split_once text_eq
dissent = refl

nested : maintenance_check busy 0 (post (codes "/memory/dissents/7/x/discard")) ≡ rejected 90
unfolding maintenance_check is_pass_through is_critical_write_path strip_prefix split_once text_eq
    retry_after_seconds
nested = refl

maintenance_check-runs_example : (maintenance_check busy 0 (post (codes "/memory")) ≡ runs) ↔ (
    (true ≡ false)
    ⊎ (false ≡ true)
    ⊎ (false ≡ true)
    ⊎ (codes "/memory" ≡ codes "/memory/search")
    ⊎ (codes "/memory" ≡ codes "/memory/context")
    ⊎ CriticalPath (codes "/memory"))
maintenance_check-runs_example = maintenance_check-runs busy 0 (post (codes "/memory"))
