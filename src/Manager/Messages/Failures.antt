-- ===== src/Manager/Messages/Failures.antt =====
-- A hook that has failed too often stops the workers of its scope.
use ooth.Prelude.{
  ℕ, ◌+◌, ◌<◌, ◌≡◌, ◌⊎◌, inl, inr, refl, true, false, not, ◌&&◌, some, List, [], ◌∷◌, In, get_elem?,
  Bool-cases, arith,
}
use mathlib.Core.Path.{subst}
use ooth.Prelude.Signed.{pos, ltb_ℤ}
use ooth.Prelude.Texts.{codes, text_eq}
use ooth.Schedule.Times.{Time, unset}
use ooth.Config.App.{awaited}
use ooth.Manager.State.{Event, Scope, worker_scope, app_scope, Run, Process, Manager, with_process}
use ooth.Manager.Hooks.{finish_run}
use ooth.Manager.Lifecycle.{World}
use ooth.Manager.Lifecycle.Evolution.{Evolves}
use ooth.Manager.Lifecycle.Progress.{stop-stopping}
use ooth.Manager.Messages.{
  fail, stop_failed, stop_current, each, run_list, restarts, stop_scope, store_run, conclude,
  action_result,
}
use ooth.Manager.Messages.Progress.{each-Advances, stop_current-Advances}

-- A worker that stops or has exited.
abbrev pub IsHalted : Process → Type 0
IsHalted c = (unset c.stopping ≡ false) ⊎ (c.exited ≡ true)

IsHalted-Evolves : (c d : Process) → Evolves c d → IsHalted c → IsHalted d
IsHalted-Evolves c d e (inl s) = let kept = e.stop_kept s in inl (rw kept s)
IsHalted-Evolves c d e (inr x) = inr (e.exit_kept x)

-- The workers of a scope.
abbrev pub members_of : Scope → Manager → List ℕ
members_of (worker_scope p) m = p ∷ []
members_of (app_scope c) m = (m.cycle c).members

-- A run whose next failure restarts its scope: it is awaited, not cancelled, bound to `restart`, and
-- the failure reaches its threshold.
pub record IsRestarting (run : Run) : Type 0 where
  pub current : run.cancelled ≡ false
  pub waited : awaited run.binding ≡ true
  pub bound : text_eq run.binding.on_failure (codes "restart") ≡ true
  pub reaching : ltb_ℤ (pos (run.failures + 1)) run.binding.failure_threshold ≡ false

restarts-IsRestarting :
    (now : Time) (run : Run) → IsRestarting run → restarts false (finish_run false now run) ≡ true
unfolding restarts finish_run
restarts-IsRestarting now run r = rw r.current (rw (r.waited, r.bound, r.reaching) refl)

module _ (world : World) (now : Time) (positive : 0 < now) where
  stop_current-IsHalted :
      (p : ℕ) (m : Manager)
      → p < m.table.count
      → IsHalted ((stop_current world now p m).table.process p)
  unfolding stop_current stop_failed
  stop_current-IsHalted p m h =
      elim (Bool-cases (unset (m.table.process p).stopping && not (m.table.process p).exited)) [
        | inl runs ↦ rw runs (inl (stop-stopping world p now positive (with_process p fail m) h))
        | inr halted ↦ rw halted (ground arith)
      ]

  each-IsHalted :
      (p : ℕ) (l : List ℕ) (m : Manager)
      → In p l
      → p < m.table.count
      → IsHalted ((each l (stop_current world now) m).table.process p)
  unfolding each
  each-IsHalted p [] m i h = absurd i
  each-IsHalted p (q ∷ qs) m (inl e) h =
      let step = stop_current-Advances world now positive p m in
      let rest =
        each-Advances qs (stop_current world now) (stop_current world now p m)
          (stop_current-Advances world now positive) in
      subst
        (λ q.
          IsHalted
            ((each qs (stop_current world now) (stop_current world now q m)).table.process p))
        e
        (IsHalted-Evolves _ _ (rest.evolves p (omega (arith, step.grows, h)))
          (stop_current-IsHalted p m h))
  each-IsHalted p (q ∷ qs) m (inr i) h =
      let step = stop_current-Advances world now positive q m in
      each-IsHalted p qs (stop_current world now q m) i (omega (arith, step.grows, h))

  stop_scope-IsHalted :
      (scope : Scope) (p : ℕ) (m : Manager)
      → In p (members_of scope m)
      → p < m.table.count
      → IsHalted ((stop_scope world scope now m).table.process p)
  unfolding stop_scope
  stop_scope-IsHalted (worker_scope q) p m (inl e) h =
      subst (λ q. IsHalted ((stop_current world now q m).table.process p)) e
        (stop_current-IsHalted p m h)
  stop_scope-IsHalted (worker_scope q) p m (inr i) h = absurd i
  stop_scope-IsHalted (app_scope c) p m i h = each-IsHalted p (m.cycle c).members m i h

  conclude-IsHalted :
      (scope : Scope) (event : Event) (index p : ℕ) (run : Run) (m : Manager)
      → IsRestarting run
      → In p (members_of scope m)
      → p < m.table.count
      → IsHalted ((conclude world scope event index false now (some run) m).table.process p)
  unfolding conclude store_run
  conclude-IsHalted scope event index p run m r i h = rw (restarts-IsRestarting now run r) (
      stop_scope-IsHalted scope p (store_run scope event index (finish_run false now run) m)
        (stored_members scope i) h)
    where
      stored_members :
          (s : Scope)
          → In p (members_of s m)
          → In p (members_of s (store_run scope event index (finish_run false now run) m))
      stored_members (worker_scope q) i = i
      stored_members (app_scope c) i = i

-- When the result of a hook arrives that has failed for the last time that its threshold allows, and
-- its binding asks for a restart, every worker of its scope, which is one worker or all that share
-- the app's cycle, stops or has exited.
pub action_result-IsHalted :
    (world : World) (scope : Scope) (event : Event) (index : ℕ) (now : Time) (p : ℕ) (run : Run)
    (m : Manager)
    → 0 < now
    → get_elem? (run_list scope event m) index ≡ some run
    → IsRestarting run
    → In p (members_of scope m)
    → p < m.table.count
    → IsHalted ((action_result world scope event index false now m).table.process p)
unfolding action_result
action_result-IsHalted world scope event index now p run m positive found r i h =
    rw found (conclude-IsHalted world now positive scope event index p run m r i h)
