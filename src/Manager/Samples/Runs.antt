-- ===== src/Manager/Samples/Runs.antt =====
-- Runs of the loop, a snapshot and a tick, and the instances of the theorems about them.
use ooth.Prelude.{◌*◌, ◌≡◌, inl, refl, true, false, some, [], ◌∷◌, arith}
use mathlib.Core.Bool.{false≢true}
use ooth.Prelude.Texts.{codes}
use ooth.Prelude.Maps.{lookup}
use ooth.Schedule.Times.{second}
use ooth.Schedule.Plan.{parse_schedule}
use ooth.Manager.Hooks.{
  phase, phase_runs, bindings, set_runs, launch_run, is_due, count_due, due_effects, cancel_phase,
}
use ooth.Manager.Lifecycle.{lifecycle, after_exit, forget}
use ooth.Manager.Messages.{each}
use ooth.Manager.Lifecycle.Evolution.{IsSound, Evolves}
use ooth.Manager.Tick.Supervise.{supervise, watch_worker}
use ooth.Manager.Tick.Shutdown.{drain, stop_unrequired}
use ooth.Manager.Tick.Turn.{tick}
use ooth.Manager.Tick.Deadlines.{IsEnded, tick-IsEnded}
use ooth.Manager.Apply.Stage.{
  Snapshot, not_opened, read_plans, open_all, open_one, keeps_listener, service_of,
}
use ooth.Manager.Apply.Commit.{apply, apply_plans, permit}
use ooth.Manager.Apply.Atomic.{IsUntouched, apply_refused}
use ooth.Manager.Loop.{
  sampled, ticked, check_fatal, is_over, round, react, take_tick, retry_pending,
}
use ooth.Manager.Loop.Reach.{Reach, here, next, Reach-IsSound, Reach-Evolves, is_over-exited}
use ooth.Manager.Samples.{
  world, app, stopping_worker, ready_worker, exited_worker, sample, limits, manager, loop,
}

-- Unfolding this name unfolds all that a round on a worker that has exited computes with.
rounds : Unit {0}
unfolding is_over check_fatal round react take_tick retry_pending tick each supervise lifecycle
    after_exit phase phase_runs bindings lookup set_runs launch_run is_due count_due due_effects
    cancel_phase forget watch_worker drain stop_unrequired
rounds = tt

-- A sample arrives, then the supervisor ticks.
two_rounds :
    Reach world
      (loop false ready_worker)
      (round world 9 ticked (round world 8 (sampled sample) (loop false ready_worker)))
unfolding is_over check_fatal round react
two_rounds = next 9 ticked (next 8 (sampled sample) here (omega arith) refl) (omega arith) refl

manager-IsSound : IsSound (manager ready_worker).table
manager-IsSound p h = record {
  ready_current = λ e. (refl, refl, refl);
  ready_based = λ e. refl;
  sent_stopping = λ e. absurd (false≢true e);
  killed_stopping = λ e. absurd (false≢true e);
}

Reach-IsSound_example :
    IsSound
      (round world 9 ticked
        (round world 8 (sampled sample) (loop false ready_worker))).manager.table
Reach-IsSound_example = Reach-IsSound two_rounds manager-IsSound

Reach-Evolves_example : Evolves ready_worker (
    (round world 9 ticked
        (round world 8 (sampled sample) (loop false ready_worker))).manager.table.process
      0)
Reach-Evolves_example = Reach-Evolves 0 two_rounds (omega arith)

last_round : Reach world (loop true exited_worker) (round world 9 ticked (loop true exited_worker))
unfolding rounds
last_round = next 9 ticked here (omega arith) refl

last_round-is_over : is_over (round world 9 ticked (loop true exited_worker)) ≡ true
unfolding rounds
last_round-is_over = refl

is_over-exited_example :
    ((round world 9 ticked (loop true exited_worker)).manager.table.process 0).exited ≡ true
is_over-exited_example =
    is_over-exited 0 last_round (omega arith) refl (inl refl) last_round-is_over

-- A new application listens on a socket that cannot be opened.
abbrev snapshot : Snapshot
snapshot = record {
  apps =
      (codes "api", record app { listen = record { network = codes "tcp"; address = codes ":80" } })
      ∷ [];
  cgroup = [];
  resources = limits;
}

snapshot_refused :
    (apply world 7 snapshot (manager ready_worker)).1 ≡ some (not_opened (codes "api"))
unfolding apply apply_plans read_plans parse_schedule open_all open_one permit keeps_listener
    service_of lookup
snapshot_refused = refl

apply_refused_example :
    IsUntouched (manager ready_worker) (apply world 7 snapshot (manager ready_worker)).0
apply_refused_example =
    apply_refused world 7 snapshot (manager ready_worker) (not_opened (codes "api"))
      snapshot_refused

tick-IsEnded_example :
    IsEnded ((tick world (2 * second) true (manager stopping_worker)).table.process 0)
tick-IsEnded_example =
    tick-IsEnded world (2 * second) true 0 (manager stopping_worker) (omega arith) (inl refl)
      (omega arith) (record { launched = refl; stopping = refl; late = refl })
