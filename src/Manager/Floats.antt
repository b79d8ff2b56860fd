-- ===== src/Manager/Floats.antt =====
-- The floating-point numbers that the occupancy of a pool is measured in.
use ooth.Prelude.{ℕ, Bool}
use ooth.Config.App.{Percent}

-- A `float64` is the number that its 64 bits spell, so that 0 is zero.
abbrev pub Float64 : Type 0
Float64 = ℕ

-- The arithmetic of Go's `float64`, which is that of IEEE 754.
pub record Floats : Type 0 where
  -- the conversions of an integer and of a percentage
  pub of_int : ℕ → Float64
  pub of_percent : Percent → Float64
  -- time.Duration.Seconds, of so many nanoseconds
  pub seconds : ℕ → Float64
  pub add : Float64 → Float64 → Float64
  pub mul : Float64 → Float64 → Float64
  pub div : Float64 → Float64 → Float64
  -- `x >= y`
  pub at_least : Float64 → Float64 → Bool
