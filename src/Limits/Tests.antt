-- ===== src/Limits/Tests.antt =====
-- Runs of the connection counter, and the theorem of this folder at a concrete input.
use klams.Common.{◌≤◌, ◌≡◌, refl, false, none, [], ◌∷◌}
use klams.Limits.{
  empty_counter, try_acquire, active, release, Service, acquired, Reachable, started, step,
}
use klams.Limits.Count.{held, Reachable-capped}

abbrev first : Service
first = record { counter = empty_counter; permits = [] }

abbrev second : Service
second = record { counter = (try_acquire empty_counter 3 1).0; permits = 3 ∷ [] }

reached : Reachable 1 second
unfolding try_acquire
reached = step first second started (acquired first 3 refl)

turned_away : (try_acquire second.counter 3 1).1 ≡ false
unfolding try_acquire
turned_away = refl

forgotten : release second.counter 3 3 ≡ none
unfolding try_acquire release
forgotten = refl

Reachable-capped_example :
    (active second.counter 3 ≡ held 3 second.permits) × (held 3 second.permits ≤ 1)
Reachable-capped_example = Reachable-capped 1 second 3 reached
