-- ===== src/Manager/Pressure.antt =====
-- `observePressure`, `evaluate` and `backoff`: the load of a service's pool, integrated over time,
-- and the delay after a failure.
pub mod Window
pub mod Growth
pub mod Backoff
use ooth.Prelude.{
  ℕ, zero, suc, ◌+◌, ◌-◌, ◌*◌, ◌^◌, ◌≤◌, ◌<◌, ◌≡◌, Bool, true, false, not, ◌||◌, ◌&&◌, List, [],
  ◌∷◌, ltb, leb, ◌==◌, if◌then◌else◌, length, any, keep_if, min, arith,
}
use ooth.Prelude.Signed.{ℤ, pos, negsuc}
use ooth.Schedule.Times.{Time, Duration, unset, reached, millisecond}
use ooth.Config.App.{Percent, one_percent}
use ooth.Manager.Floats.{Float64, Floats}
use ooth.Manager.State.{Process, PressureWindow, Service}

abbrev pub empty_window : PressureWindow
empty_window = record { since = 0; last = 0; value = 0; area = 0; workers = 0 }

-- `config.Concurrency`, which validation keeps positive.
abbrev pub slots : ℤ → ℕ
slots (pos n) = n
slots (negsuc n) = 0

-- The members that the loop does not pass over.
unfoldable pub current_members : (ℕ → Process) → List ℕ → List ℕ
current_members process = keep_if (λ p. unset (process p).stopping)

unfoldable pub busy_slots : (ℕ → Process) → ℕ → List ℕ → ℕ
busy_slots process concurrency [] = 0
busy_slots process concurrency (p ∷ ps) =
    min (length (process p).active) concurrency + busy_slots process concurrency ps

-- The old window, or a fresh one when there is none or the size of the pool has changed.
unfoldable pub kept_window : ℕ → Time → PressureWindow → PressureWindow
kept_window count now window =
    if unset window.since || not (window.workers == count)
    then record { since = now; last = now; value = 0; area = 0; workers = count }
    else window

-- `pressure.area += pressure.value * now.Sub(pressure.last).Seconds()`
unfoldable pub advance_window : Floats → ℕ → Float64 → Time → PressureWindow → PressureWindow
unfolding kept_window
advance_window floats count occupancy now window =
    let kept = kept_window count now window in
    record kept {
      area = floats.add kept.area (floats.mul kept.value (floats.seconds (now - kept.last)));
      last = now;
      value = occupancy;
    }

unfoldable pub observe_pressure : Floats → (ℕ → Process) → Time → Service → Service
unfolding current_members busy_slots advance_window
observe_pressure floats process now s =
    let members = current_members process s.workers in
    let concurrency = slots s.config.concurrency in
    if any (λ p. not (process p).ready || not (process p).telemetry) members
    then record s { pressure = empty_window }
    else if length members == 0
    then record s { pressure = empty_window }
    else record s {
      pressure =
          advance_window floats (length members)
            (floats.div (floats.of_int (busy_slots process concurrency members))
              (floats.of_int (length members * concurrency)))
            now s.pressure;
    }

-- Whether the mean occupancy of a whole window, in percent, is at the threshold; a window that was
-- evaluated starts anew.
unfoldable pub evaluate :
    Floats → Time → Duration → Percent → PressureWindow → PressureWindow × Bool
evaluate floats now window threshold pressure =
    if unset pressure.since || not (reached now pressure.since window) then (pressure, false) else (
      record pressure { since = now; area = 0 },
      floats.at_least
          (floats.div (floats.mul (floats.of_int 100) pressure.area)
            (floats.seconds (now - pressure.since)))
          (floats.of_percent threshold),
    )

-- `250ms * (1 << min(failures-1, 7))`
unfoldable pub delay_after : ℕ → ℕ
delay_after failures = 250 * millisecond * 2 ^ min (failures - 1) 7

unfoldable pub backoff : Time → Service → Service
unfolding delay_after
backoff now s = record s {
  failures = s.failures + 1;
  retry_at = now + delay_after (s.failures + 1);
}
