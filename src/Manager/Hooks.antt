-- ===== src/Manager/Hooks.antt =====
-- `phase`, `cancelChecks`, `cancelPhase` and the bookkeeping half of `actionResult`: the lifecycle
-- hooks of a scope.
pub mod Phases
use ooth.Prelude.{
  ℕ, zero, suc, ◌+◌, ◌-◌, ◌≤◌, ◌<◌, ◌≡◌, Bool, true, false, not, ◌||◌, ◌&&◌, List, [], ◌∷◌, ◌++◌,
  map, Option, some, none, ltb, leb, ◌==◌, if◌then◌else◌, all, keep_if, arith, get_elem?,
}
use ooth.Prelude.Signed.{ℤ, pos, negsuc, ltb_ℤ}
use ooth.Prelude.Texts.{Text, codes, text_eq}
use ooth.Prelude.Maps.{lookup}
use ooth.Schedule.Times.{Time, Duration}
use ooth.Config.App.{App, Trigger, awaited}
use ooth.Manager.State.{
  Event, pre_start, post_start, pre_stop, post_stop, readiness, health, Scope, worker_scope,
  app_scope, Run, Runs, Hooks, Effect, start_action, cancel_action, emit,
}

abbrev pub event_name : Event → Text
event_name pre_start = codes "pre_start"
event_name post_start = codes "post_start"
event_name pre_stop = codes "pre_stop"
event_name post_stop = codes "post_stop"
event_name readiness = codes "readiness"
event_name health = codes "health"

abbrev event_number : Event → ℕ
event_number pre_start = 0
event_number post_start = 1
event_number pre_stop = 2
event_number post_stop = 3
event_number readiness = 4
event_number health = 5

abbrev pub same_event : Event → Event → Bool
same_event a b = event_number a == event_number b

abbrev pub same_scope : Scope → Scope → Bool
same_scope (worker_scope p) (worker_scope q) = p == q
same_scope (worker_scope p) (app_scope d) = false
same_scope (app_scope c) (worker_scope q) = false
same_scope (app_scope c) (app_scope d) = c == d

-- `scope.runs[event] = list`
unfoldable pub set_runs : Scope → Event → List Run → (Scope → Runs) → Scope → Runs
set_runs scope event list runs scope' event' =
    if same_scope scope' scope && same_event event' event then some list else runs scope' event'

-- The `scope` field of a trigger.
abbrev pub kind : Scope → Text
kind (worker_scope p) = codes "worker"
kind (app_scope c) = codes "app"

abbrev pub new_run : Trigger → Run
new_run binding = record {
  binding = binding;
  running = false;
  done = false;
  success = false;
  cancelled = false;
  failures = 0;
  next = 0;
}

unfoldable pub bindings : App → Event → List Trigger
unfolding lookup
bindings config event = elim (lookup (event_name event) config.triggers) [ some l ↦ l | none ↦ [] ]

unfoldable pub phase_runs : Scope → App → Event → Hooks → List Run
unfolding bindings
phase_runs scope config event h = elim (h.runs scope event) [
  | some list ↦ list
  | none ↦ map new_run (keep_if (λ b. text_eq b.scope (kind scope)) (bindings config event))
]

-- Whether `phase` starts the run.
unfoldable pub is_due : Event → Time → Run → Bool
is_due event now run =
    not run.running
    && not run.cancelled
    && leb run.next now
    && (not run.done || same_event event health || (same_event event readiness && not run.success))

unfoldable pub launch_run : Event → Time → Run → Run
unfolding is_due
launch_run event now run = if is_due event now run then record run { running = true } else run

unfoldable pub count_due : Event → Time → List Run → ℕ
unfolding is_due
count_due event now [] = 0
count_due event now (run ∷ runs) =
    (if is_due event now run then 1 else 0) + count_due event now runs

unfoldable pub due_effects : Scope → Event → Time → ℕ → List Run → List Effect
unfolding is_due
due_effects scope event now index [] = []
due_effects scope event now index (run ∷ runs) =
    (if is_due event now run then start_action scope event index ∷ [] else [])
    ++ due_effects scope event now (index + 1) runs

unfoldable pub has_passed : Event → Run → Bool
has_passed event run =
    if same_event event health
    then ltb_ℤ (pos run.failures) run.binding.failure_threshold
    else (run.done && run.success)
      || (not (same_event event readiness)
          && run.done
          && text_eq run.binding.on_failure (codes "log"))

unfoldable pub phase : Scope → App → Event → Time → Hooks → Hooks × Bool
unfolding launch_run
phase scope config event now h =
    let runs = phase_runs scope config event h in
    (
      record {
        runs = set_runs scope event (map (launch_run event now) runs) h.runs;
        tasks = h.tasks + count_due event now runs;
        effects = due_effects scope event now 0 runs ++ h.effects;
      },
      all (λ run. not (awaited run.binding) || has_passed event run) runs,
    )

unfoldable pub cancel_run : Run → Run
cancel_run run = record run { cancelled = true }

-- `run.cancel` is set exactly while the run is running.
unfoldable pub cancel_effects : Scope → Event → ℕ → List Run → List Effect
cancel_effects scope event index [] = []
cancel_effects scope event index (run ∷ runs) =
    (if run.running then cancel_action scope event index ∷ [] else [])
    ++ cancel_effects scope event (index + 1) runs

unfoldable pub cancel_phase : Scope → Event → Hooks → Hooks
unfolding cancel_run cancel_effects set_runs
cancel_phase scope event h = elim (h.runs scope event) [
  | none ↦ h
  | some list ↦ record h {
    runs = set_runs scope event (map cancel_run list) h.runs;
    effects = cancel_effects scope event 0 list ++ h.effects;
  }
]

unfoldable pub cancel_checks : Scope → Hooks → Hooks
cancel_checks scope h =
    cancel_phase scope health (
      cancel_phase scope readiness (cancel_phase scope post_start (cancel_phase scope pre_start h)))

unfoldable pub add_duration : Time → Duration → Time
add_duration now (pos d) = now + d
add_duration now (negsuc d) = now - suc d

-- The run after its action has ended; a cancelled run keeps its old outcome.
unfoldable pub finish_run : Bool → Time → Run → Run
unfolding add_duration
finish_run succeeded now run =
    if run.cancelled then record run { running = false } else record run {
      running = false;
      done = true;
      success = succeeded;
      next = add_duration now run.binding.interval;
      failures = if succeeded then 0 else run.failures + 1;
    }
