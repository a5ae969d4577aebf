-- ===== src/Limits.antt =====
-- crates/klams-service/src/limits.rs: the count of connections per peer, and its permits.
-- The locked `HashMap` is a function; peers are numbers.
pub mod Count
mod Tests
use klams.Common.{
  ℕ, suc, ◌-◌, Bool, true, false, Option, none, some, List, [], ◌∷◌, ◌++◌, ◌≡◌, if◌then◌else◌, leb,
  ◌==◌, unwrap_or,
}

abbrev pub Counter : Type 0
Counter = ℕ → Option ℕ

-- `PerPeerCounter::new`
abbrev pub empty_counter : Counter
empty_counter peer = none

abbrev set : Counter → ℕ → Option ℕ → Counter
set c peer v p = if p == peer then v else c p

-- The counter after the attempt, and whether a permit is given. `or_insert` leaves a zero behind
-- even where it is refused.
pub try_acquire : Counter → (peer cap : ℕ) → Counter × Bool
try_acquire c peer cap =
    let entry = unwrap_or (c peer) 0 in
    if leb cap entry
    then (set c peer (some entry), false)
    else (set c peer (some (suc entry)), true)

pub active : Counter → ℕ → ℕ
active c peer = unwrap_or (c peer) 0

abbrev dropped : Counter → ℕ → Option ℕ → Counter
dropped c peer none = c
dropped c peer (some slot) = set c peer (if slot - 1 == 0 then none else some (slot - 1))

-- `drop` of a permit.
pub release : Counter → ℕ → Counter
release c peer = dropped c peer (c peer)

-- The counter, and the peers of the permits that are alive.
pub record Service : Type 0 where
  pub counter : Counter
  pub permits : List ℕ

-- One step, in whatever order connections come and go: an attempt by a peer, or the drop of a
-- permit that is alive.
pub data Step (cap : ℕ) : Service → Service → Type 0 where
  acquired :
      (s : Service) (peer : ℕ)
      → (try_acquire s.counter peer cap).1 ≡ true
      → Step cap s
          (record { counter = (try_acquire s.counter peer cap).0; permits = peer ∷ s.permits })
  refused :
      (s : Service) (peer : ℕ)
      → (try_acquire s.counter peer cap).1 ≡ false
      → Step cap s (record { counter = (try_acquire s.counter peer cap).0; permits = s.permits })
  released :
      (s : Service) (before : List ℕ) (peer : ℕ) (after : List ℕ)
      → s.permits ≡ before ++ peer ∷ after
      → Step cap s (record { counter = release s.counter peer; permits = before ++ after })

pub data Reachable (cap : ℕ) : Service → Type 0 where
  started : Reachable cap (record { counter = empty_counter; permits = [] })
  step : (s t : Service) → Reachable cap s → Step cap s t → Reachable cap t
