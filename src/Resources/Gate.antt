-- ===== src/Resources/Gate.antt =====
-- When the gate is open: exactly when each enabled limit is met by a fresh, successful sample.
use ooth.Prelude.{◌+◌, ◌*◌, ◌≤◌, ◌<◌, ◌≡◌, ◌≢◌, ◌⊎◌, ◌↔◌, false, none, arith}
use ooth.Schedule.Times.{Time, second}
use ooth.Resources.{ResourceLimits, ResourceSample, blocked}

-- A sample that is at most three seconds old and was measured without an error.
pub record IsFresh (sample : ResourceSample) (now : Time) : Type 0 where
  pub taken : sample.at ≢ 0
  pub recent : now ≤ sample.at + 3 * second
  pub measured : sample.failed ≡ false

-- Each limit, where it is not 0, leaves room.
abbrev pub HasRoom : ResourceLimits → ResourceSample → Type 0
HasRoom limits sample =
    ((limits.max_cpu ≡ 0) ⊎ (sample.cpu < limits.max_cpu))
    × (limits.min_available_memory ≤ sample.available_memory)

-- Growth is let through exactly when both limits are disabled, or the sample is fresh and each
-- enabled limit leaves room.
pub blocked-HasRoom :
    (limits : ResourceLimits) (sample : ResourceSample) (now : Time)
    → (blocked limits sample now ≡ none) ↔ (
        ((limits.max_cpu ≡ 0) × (limits.min_available_memory ≡ 0))
        ⊎ (IsFresh sample now × HasRoom limits sample))
unfolding blocked
blocked-HasRoom limits sample now = (λ h. ground arith, λ h. ground arith)
