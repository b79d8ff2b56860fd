-- ===== src/Config/Triggers.antt =====
-- The dependencies and the triggers of `App.validateActions`: what is accepted, and the values that
-- are filled in. Maps are association lists, read in their order.
pub mod Periods
pub mod Words
pub mod Meaning
use ooth.Prelude.{
  ℕ, ◌*◌, Bool, true, false, not, ◌&&◌, ◌||◌, Option, none, some, List, [], ◌∷◌, if◌then◌else◌,
  is_empty, is_some, Result, ok, err, ◌>>=◌, ◌>>◌, refuse_if,
}
use ooth.Prelude.Signed.{ℤ, pos, ltb_ℤ, is_zero, eq_ℤ}
use ooth.Prelude.Texts.{Text, codes, text_eq, contains}
use ooth.Prelude.Maps.{lookup}
use ooth.Schedule.Times.{Duration, second}
use ooth.Config.App.{Action, Trigger, awaited}

pub data TriggerError : Type 0 where
  dependency_twice unknown_condition : Text → TriggerError
  unknown_trigger : Text → TriggerError
  unknown_action : Text → Text → TriggerError
  unknown_scope invalid_period unknown_response restart_impossible : Text → TriggerError

abbrev pub conditions : List Text
conditions = codes "started" ∷ codes "ready" ∷ codes "parallel" ∷ []

unfoldable pub check_conditions : List Text → List (Text × Text) → Result TriggerError (Unit {0})
check_conditions required [] = ok tt
check_conditions required ((name, condition) ∷ rest) = do
  refuse_if (contains required name) (dependency_twice name)
  refuse_if (not (contains conditions condition)) (unknown_condition name)
  check_conditions required rest

abbrev pub trigger_events : List Text
trigger_events =
    codes "pre_start"
    ∷ codes "post_start"
    ∷ codes "pre_stop"
    ∷ codes "post_stop"
    ∷ codes "readiness"
    ∷ codes "health"
    ∷ []

abbrev pub scopes : List Text
scopes = codes "worker" ∷ codes "app" ∷ []

abbrev pub responses : List Text
responses = codes "log" ∷ codes "restart" ∷ []

unfoldable pub is_periodic : Text → Bool
is_periodic event = text_eq event (codes "health") || text_eq event (codes "readiness")

-- `!binding.awaited() || event == "pre_stop" || event == "post_stop"`
unfoldable pub cannot_restart : Text → Trigger → Bool
cannot_restart event binding =
    not (awaited binding) || text_eq event (codes "pre_stop") || text_eq event (codes "post_stop")

unfoldable pub default_scope : Text → Text
default_scope scope = if is_empty scope then codes "worker" else scope

unfoldable pub default_interval : Text → Duration → Duration
default_interval event interval =
    if is_zero interval && is_periodic event then pos second else interval

unfoldable pub default_threshold : Text → ℤ → ℤ
default_threshold event threshold =
    if is_zero threshold then (if is_periodic event then pos 3 else pos 1) else threshold

unfoldable pub default_response : Text → Trigger → Text
default_response event binding =
    if is_empty binding.on_failure
    then (if cannot_restart event binding then codes "log" else codes "restart")
    else binding.on_failure

unfoldable pub bad_period : Text → Duration → ℤ → Bool
bad_period event interval threshold =
    ltb_ℤ interval (pos 0)
    || (not (is_periodic event) && not (is_zero interval))
    || ltb_ℤ threshold (pos 1)
    || (not (is_periodic event) && not (eq_ℤ threshold (pos 1)))

-- The binding with what it leaves out.
unfoldable pub completed : Text → Trigger → Trigger
completed event binding = record binding {
  scope = default_scope binding.scope;
  interval = default_interval event binding.interval;
  failure_threshold = default_threshold event binding.failure_threshold;
  on_failure = default_response event binding;
}

unfoldable pub check_completed : List (Text × Action) → Text → Trigger → Result TriggerError Trigger
check_completed actions event binding = do
  refuse_if (not (is_some (lookup binding.action actions))) (unknown_action event binding.action)
  refuse_if (not (contains scopes binding.scope)) (unknown_scope event)
  refuse_if (bad_period event binding.interval binding.failure_threshold) (invalid_period event)
  refuse_if (not (contains responses binding.on_failure)) (unknown_response event)
  refuse_if (text_eq binding.on_failure (codes "restart") && cannot_restart event binding)
      (restart_impossible event)
  ok binding

-- No check reads a field that is filled in after it.
unfoldable pub check_binding : List (Text × Action) → Text → Trigger → Result TriggerError Trigger
check_binding actions event binding = check_completed actions event (completed event binding)

unfoldable pub check_bindings :
    List (Text × Action) → Text → List Trigger → Result TriggerError (List Trigger)
check_bindings actions event [] = ok []
check_bindings actions event (binding ∷ rest) = do
  binding' ← check_binding actions event binding
  rest' ← check_bindings actions event rest
  ok (binding' ∷ rest')

unfoldable pub check_triggers :
    List (Text × Action)
    → List (Text × List Trigger)
    → Result TriggerError (List (Text × List Trigger))
check_triggers actions [] = ok []
check_triggers actions ((event, bindings) ∷ rest) = do
  refuse_if (not (contains trigger_events event)) (unknown_trigger event)
  bindings' ← check_bindings actions event bindings
  rest' ← check_triggers actions rest
  ok ((event, bindings') ∷ rest')
