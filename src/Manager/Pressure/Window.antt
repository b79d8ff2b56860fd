-- ===== src/Manager/Pressure/Window.antt =====
-- What an observation of a pool leaves in the window that measures its occupancy.
use ooth.Prelude.{ℕ, ◌*◌, ◌≤◌, ◌<◌, ◌≡◌, ◌≢◌, ◌⊎◌, Bool, true, false, not, List, length, In, ◌||◌}
use ooth.Schedule.Times.{Time, unset}
use ooth.Manager.Floats.{Floats}
use ooth.Manager.State.{Process, PressureWindow, Service}
use ooth.Manager.Pressure.{slots, current_members, busy_slots, advance_window, empty_window}

-- Rounding is monotone: a part of a whole is at most 1.
abbrev pub HasQuotients : Floats → Type 0
HasQuotients floats =
    (part whole : ℕ)
    → part ≤ whole
    → 0 < whole
    → floats.at_least (floats.of_int 1) (floats.div (floats.of_int part) (floats.of_int whole))
      ≡ true

module _ (process : ℕ → Process) where
  -- The workers of a pool that do not stop.
  abbrev pub IsCurrent : List ℕ → ℕ → Type 0
  IsCurrent workers p = In p workers × (unset (process p).stopping ≡ true)

-- A window that is measured at the present: over all workers that do not stop, each of which is ready
-- and reports its requests, with an occupancy of at most 1, and anew where their number is another.
pub record IsMeasured (floats : Floats) (process : ℕ → Process) (now : Time) (s : Service)
    (w : PressureWindow) : Type 0 where
  pub reports :
      (p : ℕ)
      → IsCurrent process s.workers p
      → ((process p).ready ≡ true) × ((process p).telemetry ≡ true)
  pub sized : w.workers ≡ length (current_members process s.workers)
  pub some_left : 0 < w.workers
  pub ends : w.last ≡ now
  pub at_most_full : floats.at_least (floats.of_int 1) w.value ≡ true
  pub goes_on :
      unset s.pressure.since ≡ false → s.pressure.workers ≡ w.workers → w.since ≡ s.pressure.since
  pub starts : s.pressure.workers ≢ w.workers → w.since ≡ now

-- What an observation leaves: nothing, if some worker does not count yet or none is left, or else a
-- measured window.
pub data Observed (floats : Floats) (process : ℕ → Process) (now : Time) (s : Service)
    : PressureWindow → Type 0 where
  waits :
      (p : ℕ)
      → IsCurrent process s.workers p
      → ((process p).ready ≡ false) ⊎ ((process p).telemetry ≡ false)
      → Observed floats process now s empty_window
  vacant : ((p : ℕ) → ¬ IsCurrent process s.workers p) → Observed floats process now s empty_window
  measured :
      {w : PressureWindow} → IsMeasured floats process now s w → Observed floats process now s w

module _ (floats : Floats) (quotients : HasQuotients floats) (process : ℕ → Process) (now : Time)
    (s : Service) (several : 0 < slots s.config.concurrency) where
  abbrev members : List ℕ
  members = current_members process s.workers

  abbrev unready : ℕ → Bool
  unready p = not (process p).ready || not (process p).telemetry

  abbrev counted : PressureWindow
  counted =
      advance_window floats (length members)
        (floats.div (floats.of_int (busy_slots process (slots s.config.concurrency) members))
          (floats.of_int (length members * slots s.config.concurrency)))
        now s.pressure
