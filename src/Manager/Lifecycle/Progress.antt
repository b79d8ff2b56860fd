-- ===== src/Manager/Lifecycle/Progress.antt =====
-- `lifecycle` and `stop` advance the process table: they undo no stop, exit or kill, keep every
-- worker fit, and forget only workers that have exited.
use ooth.Prelude.{
  ℕ, ◌<◌, ◌≡◌, sym, refl, inl, inr, ==_iff, Bool-cases, ◌∙◌, Bool, true, false, not, arith,
}
use ooth.Schedule.Times.{Time, unset}
use ooth.Manager.State.{Process, Table, Manager, with_process, with_hooks, worker_scope}
use ooth.Manager.Hooks.{cancel_checks}
use ooth.Manager.Lifecycle.{
  World, not_ready, publish, mark_sent, abandon, mark_stopping, signal_stop, forget, after_exit,
  while_stopping, judge_health, send_stop, after_start, while_running, lifecycle, retire, throttle,
  begin_stop, stop,
}
use ooth.Manager.Lifecycle.Evolution.{
  Evolves, Advances, Advances-refl, Advances-trans, Advances-same, Advances-process,
  Advances-delete, Steps, Steps-if,
}

not_ready-Evolves : (c : Process) → Evolves c (not_ready c)
not_ready-Evolves c = ground arith

-- Readiness may be published for a worker that runs and passed its base check.
judged-Evolves :
    (c : Process) (r : Bool)
    → c.exited ≡ false
    → unset c.stopping ≡ true
    → c.pending ≡ false
    → c.base_ready ≡ true
    → Evolves c (publish r c)
judged-Evolves c r e s p b = ground arith

sent-Evolves : (c : Process) → unset c.stopping ≡ false → Evolves c (mark_sent c)
sent-Evolves c s = ground arith

abandoned-Evolves : (c : Process) → unset c.stopping ≡ false → Evolves c (abandon c)
abandoned-Evolves c s = ground arith

stopping-Evolves :
    (c : Process) (now : Time) → 0 < now → unset c.stopping ≡ true → Evolves c (mark_stopping now c)
stopping-Evolves c now positive s = ground arith

pub not-true : (b : Bool) → not b ≡ true → b ≡ false
not-true b h = ground arith

not-false : (b : Bool) → not b ≡ false → b ≡ true
not-false b h = ground arith

throttle-table : (p : ℕ) (now : Time) (m : Manager) → (throttle p now m).table ≡ m.table
unfolding throttle
throttle-table p now m = ground arith

pub retire-table : (c : ℕ) (m : Manager) → (retire c m).table ≡ m.table
unfolding retire
retire-table c m = ground arith

signal_stop-table :
    (world : World) (p : ℕ) (now : Time) (m : Manager) → (signal_stop world p now m).table ≡ m.table
unfolding signal_stop
signal_stop-table world p now m = ground arith

forget-Advances : (p : ℕ) (m : Manager) → (m.table.process p).exited ≡ true → Steps m (forget p m)
unfolding forget
forget-Advances p m gone = Advances-delete p m.table gone

after_exit-Advances :
    (p : ℕ) (now : Time) (m : Manager)
    → (m.table.process p).exited ≡ true
    → Steps m (after_exit p now m)
unfolding after_exit
after_exit-Advances p now m gone =
    Steps-if m _ (forget p _) _ (λ h. forget-Advances p _ gone) (λ h. Advances-refl m.table)

send_stop-Advances :
    (world : World) (p : ℕ) (now : Time) (m : Manager)
    → unset (m.table.process p).stopping ≡ false
    → Steps m (send_stop world p now m)
unfolding send_stop
send_stop-Advances world p now m s =
    Steps-if m (m.table.process p).pending (with_process p abandon m)
      (signal_stop world p now (with_process p mark_sent m))
      (λ pending. Advances-process p abandon m (abandoned-Evolves (m.table.process p) s))
      (λ launched.
        rw (signal_stop-table world p now (with_process p mark_sent m))
          (Advances-process p mark_sent m (sent-Evolves (m.table.process p) s)))

while_stopping-Advances :
    (world : World) (p : ℕ) (now : Time) (m : Manager)
    → unset (m.table.process p).stopping ≡ false
    → Steps m (while_stopping world p now m)
unfolding while_stopping
while_stopping-Advances world p now m s =
    Steps-if m _ (send_stop world p now _) _ (λ h. send_stop-Advances world p now _ s)
      (λ h. Advances-refl m.table)

judge_health-Advances :
    (p : ℕ) (now : Time) (m : Manager)
    → (m.table.process p).exited ≡ false
    → unset (m.table.process p).stopping ≡ true
    → (m.table.process p).pending ≡ false
    → (m.table.process p).base_ready ≡ true
    → Steps m (judge_health p now m)
unfolding judge_health
judge_health-Advances p now m e s launched based =
    Advances-process p (publish _) m (judged-Evolves (m.table.process p) _ e s launched based)

after_start-Advances :
    (p : ℕ) (now : Time) (m : Manager)
    → (m.table.process p).exited ≡ false
    → unset (m.table.process p).stopping ≡ true
    → (m.table.process p).pending ≡ false
    → (m.table.process p).base_ready ≡ true
    → Steps m (after_start p now m)
unfolding after_start
after_start-Advances p now m e s launched based =
    Steps-if m _ _ (judge_health p now _)
      (λ h. Advances-process p not_ready m (not_ready-Evolves (m.table.process p)))
      (λ h. judge_health-Advances p now _ e s launched based)

while_running-Advances :
    (p : ℕ) (now : Time) (m : Manager)
    → (m.table.process p).exited ≡ false
    → unset (m.table.process p).stopping ≡ true
    → (m.table.process p).pending ≡ false
    → Steps m (while_running p now m)
unfolding while_running
while_running-Advances p now m e s launched =
    Steps-if m _ _ (after_start p now _)
      (λ h. Advances-process p not_ready m (not_ready-Evolves (m.table.process p)))
      (λ h. after_start-Advances p now _ e s launched (ground arith))

-- `lifecycle` of any worker advances the table.
pub lifecycle-Advances :
    (world : World) (p : ℕ) (now : Time) (m : Manager) → Steps m (lifecycle world p now m)
unfolding lifecycle
lifecycle-Advances world p now m =
    Steps-if m _ _ _ (λ e. after_exit-Advances p now m e)
      (λ e.
        Steps-if m _ _ _ (λ s. while_stopping-Advances world p now m (not-true _ s))
          (λ s.
            Steps-if m _ _ _ (λ h. Advances-refl m.table)
              (λ h. while_running-Advances p now m e (not-false _ s) h)))

-- A stop that was asked for stays.
pub stays_stopping :
    (p : ℕ) {t u : Table}
    → Advances t u
    → p < t.count
    → unset (t.process p).stopping ≡ false
    → unset (u.process p).stopping ≡ false
stays_stopping p a h s = let kept = (a.evolves p h).stop_kept s in rw kept s

module _ (world : World) (p : ℕ) (now : Time) (positive : 0 < now) (m : Manager) where
  begin_stop-Advances :
      unset (m.table.process p).stopping ≡ true → Steps m (begin_stop world p now m)
  unfolding begin_stop
  begin_stop-Advances s =
      Advances-trans
        (Advances-process p (mark_stopping now) m
          (stopping-Evolves (m.table.process p) now positive s))
        (Advances-trans
          (Advances-same _ _
            (sym (throttle-table p now _ ∙ retire-table (m.table.process p).cycle _)))
          (lifecycle-Advances world p now _))

  pub stop-Advances : Steps m (stop world p now m)
  unfolding stop
  stop-Advances =
      Steps-if m _ (begin_stop world p now m) m begin_stop-Advances (λ h. Advances-refl m.table)

  -- A worker that stops is marked, whatever its hooks do.
  begin_stop-stopping :
      p < m.table.count → unset ((begin_stop world p now m).table.process p).stopping ≡ false
  unfolding begin_stop
  begin_stop-stopping h =
      stays_stopping p
        (Advances-trans (Advances-same _ _ (sym same)) (lifecycle-Advances world p now throttled)) h
        (ground (arith, (==_iff p p).1 refl))
    where
      quiet : Manager
      quiet = with_hooks (cancel_checks (worker_scope p)) (with_process p (mark_stopping now) m)

      throttled : Manager
      throttled = throttle p now (retire (m.table.process p).cycle quiet)

      same : throttled.table ≡ quiet.table
      same =
          throttle-table p now (retire (m.table.process p).cycle quiet)
          ∙ retire-table (m.table.process p).cycle quiet

  -- After `stop`, a worker is stopping.
  pub stop-stopping :
      p < m.table.count → unset ((stop world p now m).table.process p).stopping ≡ false
  unfolding stop
  stop-stopping h = elim (Bool-cases (unset (m.table.process p).stopping)) [
    | inl running ↦ rw running (begin_stop-stopping h)
    | inr already ↦ rw already already
  ]
