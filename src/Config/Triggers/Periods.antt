-- ===== src/Config/Triggers/Periods.antt =====
-- The triggers that are complete, and what the tests of a trigger establish.
use ooth.Prelude.{
  zero, suc, ◌≡◌, ◌≢◌, ◌⊎◌, none, some, refl, sym, true, false, not, ◌&&◌, List, arith, is_some, ok,
  refuse_if-passed, ok_inj,
}
use mathlib.Core.Bool.{false≢true}
use ooth.Prelude.Signed.{ℤ, pos, negsuc, ltb_ℤ, is_zero}
use ooth.Prelude.Texts.{Text, codes, text_eq, contains}
use ooth.Prelude.Maps.{lookup}
use ooth.Schedule.Times.{Duration}
use ooth.Config.App.{Action, Trigger}
use ooth.Config.Validation.Refusals.{Positive}
use ooth.Config.Triggers.{
  scopes, responses, is_periodic, cannot_restart, default_interval, bad_period, check_completed,
}

-- The events whose checks are repeated, and those that stop a worker.
abbrev pub IsPeriodic : Text → Type 0
IsPeriodic event = (event ≡ codes "health") ⊎ (event ≡ codes "readiness")

abbrev pub IsStop : Text → Type 0
IsStop event = (event ≡ codes "pre_stop") ⊎ (event ≡ codes "post_stop")

-- A binding is waited for unless it says otherwise.
abbrev pub IsAwaited : Trigger → Type 0
IsAwaited binding = binding.wait ≢ some false

-- A periodic trigger has an interval and a threshold, any other fails once; a failure restarts only
-- what waits for the trigger and does not stop.
pub record IsBinding (actions : List (Text × Action)) (event : Text) (binding : Trigger)
    : Type 0 where
  pub known : lookup binding.action actions ≢ none
  pub scoped : (binding.scope ≡ codes "worker") ⊎ (binding.scope ≡ codes "app")
  pub periodic : IsPeriodic event → Positive binding.interval × Positive binding.failure_threshold
  pub single : ¬ IsPeriodic event → (binding.interval ≡ pos 0) × (binding.failure_threshold ≡ pos 1)
  pub responds : (binding.on_failure ≡ codes "log") ⊎ (binding.on_failure ≡ codes "restart")
  pub restarts : binding.on_failure ≡ codes "restart" → IsAwaited binding × ¬ IsStop event

-- The same, in the words of the tests.
pub record IsTested (actions : List (Text × Action)) (event : Text) (binding : Trigger)
    : Type 0 where
  pub known : is_some (lookup binding.action actions) ≡ true
  pub scoped : contains scopes binding.scope ≡ true
  pub periodic :
      is_periodic event ≡ true
      → (ltb_ℤ (pos 0) binding.interval ≡ true) × (ltb_ℤ (pos 0) binding.failure_threshold ≡ true)
  pub single :
      is_periodic event ≡ false → (binding.interval ≡ pos 0) × (binding.failure_threshold ≡ pos 1)
  pub responds : contains responses binding.on_failure ≡ true
  pub restarts : binding.on_failure ≡ codes "restart" → cannot_restart event binding ≡ false

-- What the checks of a binding establish.
pub record IsChecked (actions : List (Text × Action)) (event : Text) (binding : Trigger)
    : Type 0 where
  pub known : not (is_some (lookup binding.action actions)) ≡ false
  pub scoped : not (contains scopes binding.scope) ≡ false
  pub period : bad_period event binding.interval binding.failure_threshold ≡ false
  pub responds : not (contains responses binding.on_failure) ≡ false
  pub restarts :
      (text_eq binding.on_failure (codes "restart") && cannot_restart event binding) ≡ false

pub check_completed-IsChecked :
    (actions : List (Text × Action)) (event : Text) (binding : Trigger) {result : Trigger}
    → check_completed actions event binding ≡ ok result
    → IsChecked actions event binding × (result ≡ binding)
unfolding check_completed
check_completed-IsChecked actions event binding h =
    let (a, h1) = refuse_if-passed _ _ _ h in
    let (b, h2) = refuse_if-passed _ _ _ h1 in
    let (c, h3) = refuse_if-passed _ _ _ h2 in
    let (d, h4) = refuse_if-passed _ _ _ h3 in
    let (e, h5) = refuse_if-passed _ _ _ h4 in
    (record { known = a; scoped = b; period = c; responds = d; restarts = e }, sym (ok_inj h5))

pub IsChecked-completed :
    (actions : List (Text × Action)) (event : Text) (binding : Trigger)
    → IsChecked actions event binding
    → check_completed actions event binding ≡ ok binding
unfolding check_completed
IsChecked-completed actions event binding c =
    rw (c.known, c.scoped, c.period, c.responds, c.restarts) refl

-- A period that passes is one of the two kinds.
pub passed_period :
    (event : Text) (interval : Duration) (threshold : ℤ)
    → bad_period event interval threshold ≡ false
    → (is_periodic event ≡ true → is_zero interval ≡ false)
    → (is_periodic event ≡ true
        → (ltb_ℤ (pos 0) interval ≡ true) × (ltb_ℤ (pos 0) threshold ≡ true))
      × (is_periodic event ≡ false → (interval ≡ pos 0) × (threshold ≡ pos 1))
unfolding bad_period
passed_period event (pos zero) (pos n) h filled =
    (λ e. absurd (false≢true (sym (filled e))), λ e. (refl, ground arith))
passed_period event (pos (suc i)) (pos n) h filled =
    (λ e. (ground arith, ground arith), λ e. absurd (ground arith))
passed_period event (negsuc i) threshold h filled = absurd (false≢true (sym h))
passed_period event (pos i) (negsuc n) h filled = absurd (ground arith)

pub filled_interval :
    (event : Text) (interval : Duration)
    → is_periodic event ≡ true
    → is_zero (default_interval event interval) ≡ false
unfolding default_interval
filled_interval event (pos zero) h = ground arith
filled_interval event (pos (suc n)) h = ground arith
filled_interval event (negsuc n) h = ground arith
