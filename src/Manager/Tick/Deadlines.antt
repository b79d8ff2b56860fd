-- ===== src/Manager/Tick/Deadlines.antt =====
-- The deadlines that a tick enforces on the workers that it supervises.
use ooth.Prelude.{
  ℕ, ◌<◌, ◌≡◌, ◌⊎◌, inl, inr, refl, Bool, true, false, List, [], ◌∷◌, In, ==_iff, arith,
  if◌then◌else◌,
}
use mathlib.Core.Path.{subst}
use ooth.Schedule.Times.{Time, unset, reached}
use ooth.Manager.State.{Process, Manager}
use ooth.Manager.Lifecycle.{World, lifecycle}
use ooth.Manager.Lifecycle.Evolution.{Evolves}
use ooth.Manager.Lifecycle.Progress.{lifecycle-Advances}
use ooth.Manager.Messages.{each}
use ooth.Manager.Messages.Progress.{each-Advances}
use ooth.Manager.Tick.Supervise.{enforce_stop, watch_worker, supervise, rearm_listeners}
use ooth.Manager.Tick.Turn.{tick}
use ooth.Manager.Tick.Watch.{supervise-Advances, rearm_listeners-table}
use ooth.Manager.Tick.Progress.{turn-Advances}

-- A launched worker whose time to stop is over.
pub record IsOverdue (now : Time) (c : Process) : Type 0 where
  pub launched : c.pending ≡ false
  pub stopping : unset c.stopping ≡ false
  pub late : reached now c.stopping c.config.stop_timeout ≡ true

-- A worker that was killed, or has exited.
abbrev pub IsEnded : Process → Type 0
IsEnded c = (c.killed ≡ true) ⊎ (c.exited ≡ true)

IsOverdue-Evolves : (now : Time) (c d : Process) → Evolves c d → IsOverdue now c → IsOverdue now d
IsOverdue-Evolves now c d e o =
    let stop = e.stop_kept o.stopping in
    let config = e.config_kept in
    record {
      launched = e.launch_kept o.launched;
      stopping = rw stop o.stopping;
      late = rw stop (rw config o.late);
    }

IsEnded-Evolves : (c d : Process) → Evolves c d → IsEnded c → IsEnded d
IsEnded-Evolves c d e (inl k) = inl (e.killed_kept k)
IsEnded-Evolves c d e (inr x) = inr (e.exit_kept x)

watch_worker-IsEnded :
    (world : World) (p : ℕ) (now : Time) (m : Manager)
    → IsOverdue now (m.table.process p)
    → IsEnded ((watch_worker world p now m).table.process p)
unfolding watch_worker enforce_stop
watch_worker-IsEnded world p now m o =
    ground (arith, (==_iff p p).1 refl, o.launched, o.stopping, o.late)

supervise-IsEnded :
    (world : World) (p : ℕ) (now : Time) (m : Manager)
    → p < m.table.count
    → IsOverdue now (m.table.process p)
    → IsEnded ((supervise world now p m).table.process p)
unfolding supervise
supervise-IsEnded world p now m h o =
    watch_worker-IsEnded world p now (lifecycle world p now m)
      (IsOverdue-Evolves now _ _ ((lifecycle-Advances world p now m).evolves p h) o)

module _ (world : World) (now : Time) (positive : 0 < now) (p : ℕ) where
  -- The loop over the workers ends every overdue worker that it meets.
  each-IsEnded :
      (l : List ℕ) (m : Manager)
      → In p l
      → p < m.table.count
      → IsOverdue now (m.table.process p)
      → IsEnded ((each l (supervise world now) m).table.process p)
  unfolding each
  each-IsEnded [] m i h o = absurd i
  each-IsEnded (q ∷ qs) m (inl e) h o =
      let here = supervise world now p m in
      let step = supervise-Advances world now positive p m in
      let rest =
        each-Advances qs (supervise world now) here (supervise-Advances world now positive) in
      subst
        (λ q. IsEnded ((each qs (supervise world now) (supervise world now q m)).table.process p)) e
        (IsEnded-Evolves _ _ (rest.evolves p (omega (arith, step.grows, h)))
          (supervise-IsEnded world p now m h o))
  each-IsEnded (q ∷ qs) m (inr i) h o =
      let step = supervise-Advances world now positive q m in
      each-IsEnded qs (supervise world now q m) i (omega (arith, step.grows, h))
        (IsOverdue-Evolves now _ _ (step.evolves p h) o)

-- After a tick, whether the supervisor serves or shuts down, every supervised worker that was
-- launched and whose stop has outlived its stop timeout has been killed or has exited.
pub tick-IsEnded :
    (world : World) (now : Time) (stopping : Bool) (p : ℕ) (m : Manager)
    → 0 < now
    → In p m.table.workers
    → p < m.table.count
    → IsOverdue now (m.table.process p)
    → IsEnded ((tick world now stopping m).table.process p)
unfolding tick
tick-IsEnded world now stopping p m positive i h o =
    let loop =
      each-Advances watched.table.workers (supervise world now) watched
        (supervise-Advances world now positive) in
    IsEnded-Evolves _ _
      ((turn-Advances world now positive stopping _).evolves p (omega (arith, loop.grows, inside)))
      (each-IsEnded world now positive p watched.table.workers watched listed inside late)
  where
    watched : Manager
    watched = if stopping then m else rearm_listeners world now m.listeners m

    same_table :
        (b : Bool) → (if b then m else rearm_listeners world now m.listeners m).table ≡ m.table
    same_table true = refl
    same_table false = rearm_listeners-table world now m.listeners m

    inside : p < watched.table.count
    inside = rw (same_table stopping) h

    listed : In p watched.table.workers
    listed = rw (same_table stopping) i

    late : IsOverdue now (watched.table.process p)
    late = rw (same_table stopping) o
