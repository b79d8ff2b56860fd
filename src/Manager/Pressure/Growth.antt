-- ===== src/Manager/Pressure/Growth.antt =====
-- How often the pressure of a pool can ask for growth.
use ooth.Prelude.{
  ℕ, ◌+◌, ◌≤◌, ◌<◌, ◌≡◌, ◌⊎◌, inl, inr, refl, true, false, not, ◌||◌, ◌==◌, length, any, arith,
  Bool-cases,
}
use mathlib.Core.Bool.{false≢true}
use ooth.Prelude.Signed.{pos}
use ooth.Schedule.Times.{Time, Duration, unset, reached}
use ooth.Config.App.{Percent}
use ooth.Manager.Floats.{Floats}
use ooth.Manager.State.{Process, PressureWindow, Service}
use ooth.Manager.Pressure.{advance_window, kept_window, observe_pressure, evaluate, current_members}

-- What happens to the window of a service from a time on: observations, of whatever workers, and
-- evaluations, by whatever window and threshold.
pub data History (floats : Floats) (start : Time) (first : PressureWindow)
    : PressureWindow → Type 0 where
  stays : History floats start first first
  observed :
      (process : ℕ → Process) (s : Service) (now : Time)
      → History floats start first s.pressure
      → start ≤ now
      → History floats start first (observe_pressure floats process now s).pressure
  evaluated :
      {w : PressureWindow} (now : Time) (window : Duration) (threshold : Percent)
      → History floats start first w
      → start ≤ now
      → History floats start first (evaluate floats now window threshold w).0

-- No window, or one that was started at this time or later.
abbrev IsRecent : Time → PressureWindow → Type 0
IsRecent start w = (w.since ≡ 0) ⊎ (start ≤ w.since)

kept_window-IsRecent :
    (start : Time) (count : ℕ) (now : Time) (w : PressureWindow)
    → start ≤ now
    → IsRecent start w
    → IsRecent start (kept_window count now w)
unfolding kept_window
kept_window-IsRecent start count now w later recent =
    elim (Bool-cases (unset w.since || not (w.workers == count))) [
      | inl fresh ↦ rw fresh (inr later)
      | inr kept ↦ rw kept recent
    ]

observe_pressure-IsRecent :
    (floats : Floats) (process : ℕ → Process) (start now : Time) (s : Service)
    → start ≤ now
    → IsRecent start s.pressure
    → IsRecent start (observe_pressure floats process now s).pressure
unfolding observe_pressure advance_window
observe_pressure-IsRecent floats process start now s later recent =
    elim (Bool-cases (
      any (λ p. not (process p).ready || not (process p).telemetry)
        (current_members process s.workers))) [
          | inl some_unready ↦ rw some_unready (inl refl)
          | inr all_report ↦ elim (Bool-cases (length (current_members process s.workers) == 0)) [
            | inl none_left ↦ rw (all_report, none_left) (inl refl)
            | inr filled ↦
                rw (all_report, filled)
                  (kept_window-IsRecent start (length (current_members process s.workers)) now
                    s.pressure later recent)
          ]
        ]

evaluate-IsRecent :
    (floats : Floats) (start now : Time) (window : Duration) (threshold : Percent)
    (w : PressureWindow)
    → start ≤ now
    → IsRecent start w
    → IsRecent start (evaluate floats now window threshold w).0
unfolding evaluate
evaluate-IsRecent floats start now window threshold w later recent =
    elim (Bool-cases (unset w.since || not (reached now w.since window))) [
      | inl early ↦ rw early recent
      | inr whole ↦ rw whole (inr later)
    ]

History-IsRecent :
    (floats : Floats) (start : Time) (first w : PressureWindow)
    → IsRecent start first
    → History floats start first w
    → IsRecent start w
History-IsRecent floats start first w recent stays = recent
History-IsRecent floats start first w recent (observed process s now run later) =
    observe_pressure-IsRecent floats process start now s later
      (History-IsRecent floats start first s.pressure recent run)
History-IsRecent floats start first w recent (evaluated {w = v} now window threshold run later) =
    evaluate-IsRecent floats start now window threshold v later
      (History-IsRecent floats start first v recent run)

asked-IsRecent :
    (floats : Floats) (now : Time) (window : Duration) (threshold : Percent) (w : PressureWindow)
    → (evaluate floats now window threshold w).1 ≡ true
    → IsRecent now (evaluate floats now window threshold w).0
unfolding evaluate
asked-IsRecent floats now window threshold w asked =
    elim (Bool-cases (unset w.since || not (reached now w.since window))) [
      | inl early ↦ absurd (false≢true (rw (evaluate, early) at asked))
      | inr whole ↦ rw whole (inr (omega arith))
    ]

recent-evaluate :
    (floats : Floats) (start now : Time) (window : ℕ) (threshold : Percent) (w : PressureWindow)
    → IsRecent start w
    → now < start + window
    → (evaluate floats now (pos window) threshold w).1 ≡ false
unfolding evaluate
recent-evaluate floats start now window threshold w recent soon =
    elim (Bool-cases (unset w.since || not (reached now w.since (pos window)))) [
      | inl early ↦ rw early refl
      | inr whole ↦ absurd (elim recent [ inl forgotten ↦ ground arith | inr late ↦ ground arith ])
    ]

-- Once an evaluation has asked for growth, none asks for it again before a whole window of its own
-- has passed, whatever is observed and evaluated in between: at the times from then on, of whatever
-- workers, and by whatever threshold.
pub evaluate-once :
    (floats : Floats) (start later : Time) (given : Duration) (window : ℕ)
    (threshold threshold' : Percent) (w v : PressureWindow)
    → (evaluate floats start given threshold w).1 ≡ true
    → History floats start (evaluate floats start given threshold w).0 v
    → later < start + window
    → (evaluate floats later (pos window) threshold' v).1 ≡ false
evaluate-once floats start later given window threshold threshold' w v asked run soon =
    recent-evaluate floats start later window threshold' v
      (History-IsRecent floats start (evaluate floats start given threshold w).0 v
        (asked-IsRecent floats start given threshold w asked) run)
      soon
