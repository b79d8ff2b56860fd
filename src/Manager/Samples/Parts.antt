-- ===== src/Manager/Samples/Parts.antt =====
-- The gate, the hooks, the window, the delay and the cadence at concrete inputs.
use ooth.Prelude.{false, true, ◌+◌, ◌-◌, ◌%◌, ◌≤◌, ◌<◌, ◌≡◌, ◌⊎◌, ◌↔◌, refl, none, arith}
use ooth.Prelude.Signed.{pos}
use ooth.Prelude.Maps.{lookup}
use ooth.Prelude.Texts.{codes}
use ooth.Schedule.Times.{second}
use ooth.Resources.{blocked}
use ooth.Resources.Gate.{IsFresh, HasRoom, blocked-HasRoom}
use ooth.Manager.State.{PressureWindow, Service, health, worker_scope}
use ooth.Manager.Pressure.{observe_pressure, evaluate}
use ooth.Manager.Pressure.Growth.{History, observed, stays, evaluate-once}
use ooth.Manager.Hooks.{phase, phase_runs, bindings, set_runs, launch_run, is_due, count_due}
use ooth.Manager.Hooks.Phases.{phase-twice}
use ooth.Manager.Tick.Demand.{next_cadence}
use ooth.Manager.Tick.Cadence.{next_cadence_lem}
use ooth.Manager.Messages.{request_start, request_end}
use ooth.Manager.Messages.Requests.{MayStart, request_end-request_start}
use ooth.Manager.Samples.{
  window, manager, world, floats, app, ready_worker, service, hooks, sample, limits,
}

blocked-HasRoom_example : (blocked limits sample second ≡ none) ↔ (
    ((limits.max_cpu ≡ 0) × (limits.min_available_memory ≡ 0))
    ⊎ (IsFresh sample second × HasRoom limits sample))
blocked-HasRoom_example = blocked-HasRoom limits sample second

phase-twice_example :
    let once = (phase (worker_scope 0) app health 9 hooks).0 in
    let twice = (phase (worker_scope 0) app health 9 once).0 in
    (twice.tasks ≡ once.tasks) × (twice.effects ≡ once.effects)
phase-twice_example = phase-twice (worker_scope 0) app health 9 hooks

-- The first of the two starts the health check.
phase_once : (phase (worker_scope 0) app health 9 hooks).0.tasks ≡ 1
unfolding phase phase_runs bindings lookup set_runs launch_run is_due count_due
phase_once = refl

next_cadence_lem_example :
    ((17 < next_cadence 5 3 17) × (next_cadence 5 3 17 ≤ 17 + 5))
    × ((next_cadence 5 3 17 - 3) % 5 ≡ 0)
next_cadence_lem_example = next_cadence_lem 5 3 17 (omega arith) (omega arith)

ready_worker-MayStart : MayStart (codes "b") ready_worker
unfolding lookup
ready_worker-MayStart = record { speaks = refl; named = refl; absent = refl }

request_end-request_start_example :
    let m = manager ready_worker in
    let n = request_end world 0 (codes "b") 11 (request_start world 0 (codes "b") 9 m) in
    (lookup (codes "a") (n.table.process 0).active ≡ lookup (codes "a") (m.table.process 0).active)
    × ((n.table.process 0).stopping ≡ (m.table.process 0).stopping)
request_end-request_start_example =
    request_end-request_start world 0 (codes "b") (codes "a") 9 11 (manager ready_worker)
      (omega arith) ready_worker-MayStart

-- The window after an evaluation at the time 3 that asks for growth, and after it a request that is
-- observed.
abbrev restarted : PressureWindow
restarted = (evaluate floats 3 (pos 1) 1 window).0

abbrev restarted_service : Service
restarted_service = record service { pressure = restarted }

asks : (evaluate floats 3 (pos 1) 1 window).1 ≡ true
unfolding evaluate
asks = refl

observed_run :
    History floats 3
      (evaluate floats 3 (pos 1) 1 window).0
      (observe_pressure floats (λ p. ready_worker) 4 restarted_service).pressure
unfolding evaluate
observed_run = observed (λ p. ready_worker) restarted_service 4 stays (omega arith)

evaluate-once_example :
    (evaluate floats 5
      (pos second)
      1
      (observe_pressure floats (λ p. ready_worker) 4 restarted_service).pressure).1
    ≡ false
evaluate-once_example =
    evaluate-once floats 3 5 (pos 1) second 1 1 window
      (observe_pressure floats (λ p. ready_worker) 4 restarted_service).pressure asks observed_run
      (omega arith)
