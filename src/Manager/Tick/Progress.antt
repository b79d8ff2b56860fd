-- ===== src/Manager/Tick/Progress.antt =====
-- `tick` advances the process table, whether the supervisor serves or stops.
use ooth.Prelude.{
  ℕ, ◌<◌, ◌≡◌, refl, sym, ◌∙◌, Bool, true, false, List, [], ◌∷◌, Option, some, none, arith,
  if◌then◌else◌,
}
use ooth.Prelude.Signed.{ℤ, pos, leb_ℤ}
use ooth.Prelude.Texts.{Text}
use ooth.Schedule.Times.{Time}
use ooth.Manager.State.{Manager, with_service}
use ooth.Manager.Lifecycle.{World, stop, observe_service}
use ooth.Manager.Lifecycle.Evolution.{Advances-refl, Advances-trans, Advances-same, Steps, Steps-if}
use ooth.Manager.Lifecycle.Progress.{lifecycle-Advances, stop-Advances}
use ooth.Manager.Messages.{each}
use ooth.Manager.Messages.Progress.{stop_failed-Advances, each-Advances}
use ooth.Manager.Launch.{before_start, start_process, spawn}
use ooth.Manager.Launch.Progress.{start_process-Advances, spawn-Advances}
use ooth.Manager.Tick.Supervise.{supervise, rearm_listeners}
use ooth.Manager.Tick.Demand.{
  Demand, reserve_execution, advance_schedule, schedule_due, demand_of, demands,
}
use ooth.Manager.Tick.Pool.{
  suspend, started, start_pending, run_scheduled, after_spawn, grow, judge_pressure, settle, shrink,
  resize, tend, govern,
}
use ooth.Manager.Tick.Shutdown.{stop_unrequired, drain}
use ooth.Manager.Tick.Turn.{govern_all, serve, tick}
use ooth.Manager.Tick.Watch.{rearm_listeners-table, supervise-Advances}

reserve_execution-table : (s : ℕ) (m : Manager) → (reserve_execution s m).table ≡ m.table
unfolding reserve_execution
reserve_execution-table s m = ground arith

schedule_due-table :
    (world : World) (s : ℕ) (now : Time) (m : Manager)
    → (schedule_due world s now m).table ≡ m.table
unfolding schedule_due
schedule_due-table world s now m = ground (
  arith,
  reserve_execution-table s (
      with_service s (λ r. record r { next_run = (advance_schedule world now (m.service s)).0 }) m),
)

demand_of-table :
    (world : World) (now : Time) (e : Text × ℕ) (state : Manager × Demand)
    → (demand_of world now e state).0.table ≡ state.0.table
unfolding demand_of
demand_of-table world now (name, s) (m, d) = ground (arith, schedule_due-table world s now m)

demands-table :
    (world : World) (now : Time) (l : List (Text × ℕ)) (state : Manager × Demand)
    → (demands world now l state).0.table ≡ state.0.table
unfolding demands
demands-table world now [] state = refl
demands-table world now (e ∷ es) state =
    demands-table world now es (demand_of world now e state) ∙ demand_of-table world now e state

module _ (world : World) (now : Time) (positive : 0 < now) where
  suspend-Advances : (s : ℕ) (m : Manager) → Steps m (suspend world s now m)
  unfolding suspend
  suspend-Advances s m =
      Advances-trans
        (Steps-if m _ (with_service s (λ r. record r { demand = true }) m) m
          (λ h. Advances-refl m.table) (λ h. Advances-refl m.table))
        (each-Advances (m.service s).workers (λ p. stop world p now) _
          (λ p n. stop-Advances world p now positive n))

  started-Advances :
      (p : ℕ) (m : Manager) (o : Option Manager)
      → ((n : Manager) → o ≡ some n → Steps m n)
      → Steps m (started world p now m o)
  unfolding started
  started-Advances p m none f = stop_failed-Advances world now positive p m
  started-Advances p m (some n) f = Advances-trans (f n refl) (lifecycle-Advances world p now n)

  start_pending-Advances : (p : ℕ) (m : Manager) → Steps m (start_pending world now p m)
  unfolding start_pending before_start
  start_pending-Advances p m =
      let m' = (before_start p now m).0 in
      let allowed = (before_start p now m).1 in
      let begun = started world p now m' (start_process world p now m') in
      Steps-if m _ m (if allowed then begun else m') (λ h. Advances-refl m.table)
        (λ h.
          Steps-if m allowed begun m'
            (λ h.
              started-Advances p m' (start_process world p now m')
                (start_process-Advances world p now m'))
            (λ h. Advances-refl m.table))

  run_scheduled-Advances : (s : ℕ) (m : Manager) → Steps m (run_scheduled world s now m)
  unfolding run_scheduled
  run_scheduled-Advances s m =
      Steps-if m _ (spawn world s now _).0 m (λ h. spawn-Advances world s now _)
        (λ h. Advances-refl m.table)

  after_spawn-table : (s : ℕ) (r : Manager × Bool) → (after_spawn s now r).table ≡ r.0.table
  after_spawn-table s (m, true) = refl
  after_spawn-table s (m, false) = refl

  grow-Advances : (s : ℕ) (r g : Bool) (m : Manager) → Steps m (grow world s r g now m)
  unfolding grow observe_service
  grow-Advances s r g m =
      Steps-if m _ (observe_service world s now (after_spawn s now (spawn world s now m))) m
        (λ h.
          Advances-trans (spawn-Advances world s now m)
            (Advances-same _ _ (sym (after_spawn-table s (spawn world s now m)))))
        (λ h. Advances-refl m.table)

  shrink-Advances :
      (s : ℕ) (minimum : ℤ) (w : Bool) (l : List ℕ) (have : ℕ) (m : Manager)
      → Steps m (shrink world s minimum w now l have m)
  unfolding shrink
  shrink-Advances s minimum w [] have m = Advances-refl m.table
  shrink-Advances s minimum w (p ∷ ps) have m =
      Steps-if m (leb_ℤ (pos have) minimum) m _ (λ h. Advances-refl m.table)
        (λ h.
          Advances-trans
            (Steps-if m _ (stop world p now m) m (λ h. stop-Advances world p now positive m)
              (λ h. Advances-refl m.table))
            (shrink-Advances s minimum w ps _ _))

  resize-Advances :
      (d : Demand) (name : Text) (s : ℕ) (m : Manager) → Steps m (resize world d name s now m)
  unfolding resize judge_pressure settle observe_service
  resize-Advances d name s m =
      let (m1, growth) = judge_pressure world s now m in
      Advances-trans (grow-Advances s _ growth m1) (shrink-Advances s _ _ _ _ _)

  tend-Advances :
      (d : Demand) (name : Text) (s : ℕ) (m : Manager) → Steps m (tend world d name s now m)
  unfolding tend
  tend-Advances d name s m =
      let m' = each (m.service s).workers (start_pending world now) m in
      Advances-trans
        (each-Advances (m.service s).workers (start_pending world now) m start_pending-Advances)
        (Steps-if m' _ (run_scheduled world s now m') (resize world d name s now m')
          (λ h. run_scheduled-Advances s m') (λ h. resize-Advances d name s m'))

  govern-Advances : (d : Demand) (e : Text × ℕ) (m : Manager) → Steps m (govern world d now e m)
  unfolding govern
  govern-Advances d (name, s) m =
      Steps-if m _ (suspend world s now m) (tend world d name s now m) (λ h. suspend-Advances s m)
        (λ h. tend-Advances d name s m)

  govern_all-Advances :
      (d : Demand) (l : List (Text × ℕ)) (m : Manager) → Steps m (govern_all world d now l m)
  unfolding govern_all
  govern_all-Advances d [] m = Advances-refl m.table
  govern_all-Advances d (e ∷ es) m =
      Advances-trans (govern-Advances d e m) (govern_all-Advances d es (govern world d now e m))

  serve-Advances : (m : Manager) → Steps m (serve world now m)
  unfolding serve
  serve-Advances m =
      Advances-trans (Advances-same _ _ (sym (demands-table world now _ _)))
        (govern_all-Advances _ _ _)

  drain-Advances : (m : Manager) → Steps m (drain world now m)
  unfolding drain stop_unrequired
  drain-Advances m = each-Advances m.table.workers (stop_unrequired world now) m (λ p n.
      Steps-if n _ n (stop world p now n) (λ h. Advances-refl n.table)
        (λ h. stop-Advances world p now positive n))

  -- What follows the loop over the workers, whether the supervisor serves or stops.
  pub turn-Advances :
      (stopping : Bool) (m : Manager)
      → Steps m (if stopping then drain world now m else serve world now m)
  turn-Advances stopping m =
      Steps-if m stopping (drain world now m) (serve world now m) (λ h. drain-Advances m)
        (λ h. serve-Advances m)

  -- `tick` advances the table.
  pub tick-Advances : (stopping : Bool) (m : Manager) → Steps m (tick world now stopping m)
  unfolding tick
  tick-Advances stopping m =
      let watched = if stopping then m else rearm_listeners world now m.listeners m in
      Advances-trans
        (Steps-if m stopping m (rearm_listeners world now m.listeners m)
          (λ h. Advances-refl m.table)
          (λ h. Advances-same _ _ (sym (rearm_listeners-table world now m.listeners m))))
        (Advances-trans
          (each-Advances watched.table.workers (supervise world now) watched
            (supervise-Advances world now positive))
          (turn-Advances stopping _))
