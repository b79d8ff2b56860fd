-- ===== src/Manager/Samples/Failures.antt =====
-- A hook that fails for the last time, and a worker that cannot be started.
use ooth.Prelude.{ℕ, inr, In, get_elem?, ◌≡◌, inl, refl, true, false, none, some, [], ◌∷◌, arith}
use ooth.Prelude.Maps.{lookup}
use ooth.Manager.State.{app_scope, Run, health, Manager}
use ooth.Manager.Hooks.{phase, phase_runs, bindings, set_runs}
use ooth.Manager.Lifecycle.{World}
use ooth.Manager.Messages.{run_list, action_result}
use ooth.Manager.Messages.Failures.{IsHalted, IsRestarting, action_result-IsHalted}
use ooth.Manager.Launch.{
  spawn, open_cycle, reserve, before_start, after_start_process, start_process,
}
use ooth.Manager.Launch.Failure.{LeavesNone, spawn_failed}
use ooth.Manager.Samples.{world, health_check, ready_worker, hooks, manager}

-- The health check of the worker 0 has failed twice, and fails again.
abbrev failing_run : Run
failing_run = record {
  binding = health_check;
  running = true;
  done = true;
  success = false;
  cancelled = false;
  failures = 2;
  next = 0;
}

abbrev failing : Manager
failing = record (manager ready_worker) {
  hooks = record hooks { runs = λ scope event. some (failing_run ∷ []); tasks = 1 };
}

failing_run-IsRestarting : IsRestarting failing_run
failing_run-IsRestarting = record { current = refl; waited = refl; bound = refl; reaching = refl }

failing_found : get_elem? (run_list (app_scope 0) health failing) 0 ≡ some failing_run
unfolding run_list
failing_found = refl

action_result-IsHalted_example :
    IsHalted ((action_result world (app_scope 0) health 0 false 9 failing).table.process 0)
action_result-IsHalted_example =
    action_result-IsHalted world (app_scope 0) health 0 9 0 failing_run failing (omega arith)
      failing_found failing_run-IsRestarting (inl refl) (omega arith)

abbrev broken : World
broken = record world { launch = λ p t. none }

broken_start : (spawn broken 0 9 (manager ready_worker)).1 ≡ false
unfolding spawn open_cycle reserve before_start after_start_process start_process phase phase_runs
    bindings lookup set_runs
broken_start = refl

spawn_failed_example :
    LeavesNone 0 (manager ready_worker) (spawn broken 0 9 (manager ready_worker)).0
spawn_failed_example =
    spawn_failed broken 0 9 (manager ready_worker) (λ i. one_absent i) (λ i. one_absent i)
      broken_start
  where
    one_absent : In {A = ℕ} 1 (0 ∷ []) → ⊥
    one_absent (inl e) = omega (arith, e)
    one_absent (inr i) = i
