-- ===== src/Resources.antt =====
-- src/main.go: `ResourceLimits.blocked`, the gate that holds back extra workers. Percentages count
-- millionths of a percent.
pub mod Gate
use ooth.Prelude.{
  ℕ, ◌+◌, ◌*◌, Bool, true, false, not, ◌||◌, ◌&&◌, Option, none, some, ltb, leb, ◌==◌,
  if◌then◌else◌,
}
use ooth.Schedule.Times.{Time, unset, second}
use ooth.Config.App.{Percent}

pub record ResourceLimits : Type 0 where
  pub max_cpu : Percent
  pub min_available_memory : Percent

-- `resourceSample`; `failed` says that `err` is set.
pub record ResourceSample : Type 0 where
  pub at : Time
  pub cpu : Percent
  pub available_memory : Percent
  pub failed : Bool

-- The messages of `blocked`; `none` is the empty one.
pub data Reason : Type 0 where
  stale_sample unavailable cpu_limit memory_reserve : Reason

unfoldable pub blocked : ResourceLimits → ResourceSample → Time → Option Reason
blocked limits sample now =
    if limits.max_cpu == 0 && limits.min_available_memory == 0
    then none
    else if unset sample.at || ltb (sample.at + 3 * second) now
    then some stale_sample
    else if sample.failed
    then some unavailable
    else if ltb 0 limits.max_cpu && leb limits.max_cpu sample.cpu
    then some cpu_limit
    else if ltb 0 limits.min_available_memory
        && ltb sample.available_memory limits.min_available_memory
    then some memory_reserve
    else none
