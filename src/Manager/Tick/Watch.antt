-- ===== src/Manager/Tick/Watch.antt =====
-- The loops of `tick` over the listeners and the workers advance the process table.
use ooth.Prelude.{ℕ, ◌<◌, ◌≡◌, refl, sym, ◌∙◌, false, not, List, [], ◌∷◌, arith, if◌then◌else◌}
use ooth.Prelude.Texts.{Text}
use ooth.Schedule.Times.{Time, unset}
use ooth.Manager.State.{Process, Manager}
use ooth.Manager.Lifecycle.{World, lifecycle}
use ooth.Manager.Lifecycle.Evolution.{
  Evolves, Advances-refl, Advances-trans, Advances-same, Advances-process, Steps, Steps-if,
}
use ooth.Manager.Lifecycle.Progress.{lifecycle-Advances, not-true}
use ooth.Manager.Messages.{stop_failed}
use ooth.Manager.Messages.Progress.{stop_failed-Advances}
use ooth.Manager.Tick.Supervise.{
  mark_killed, mark_probing, enforce_stop, start_deadline, try_probe, request_deadlines,
  watch_requests, forgive, watch_running, watch_worker, supervise, rearm_listener, rearm_listeners,
}

killed-Evolves : (c : Process) → unset c.stopping ≡ false → Evolves c (mark_killed c)
killed-Evolves c s = ground arith

probing-Evolves : (c : Process) → Evolves c (mark_probing c)
probing-Evolves c = ground arith

enforce_stop-Advances :
    (p : ℕ) (now : Time) (m : Manager)
    → unset (m.table.process p).stopping ≡ false
    → Steps m (enforce_stop p now m)
unfolding enforce_stop
enforce_stop-Advances p now m s =
    Steps-if m _ _ _ (λ h. Advances-process p mark_killed m (killed-Evolves (m.table.process p) s))
      (λ h. Advances-refl m.table)

try_probe-Advances : (p : ℕ) (now : Time) (m : Manager) → Steps m (try_probe p now m)
unfolding try_probe
try_probe-Advances p now m =
    Steps-if m _ _ _ (λ h. Advances-process p mark_probing m (probing-Evolves (m.table.process p)))
      (λ h. Advances-refl m.table)

forgive-table : (p : ℕ) (now : Time) (m : Manager) → (forgive p now m).table ≡ m.table
unfolding forgive
forgive-table p now m = ground arith

rearm_listener-table :
    (world : World) (now : Time) (l : ℕ × ℕ) (m : Manager)
    → (rearm_listener world now l m).table ≡ m.table
unfolding rearm_listener
rearm_listener-table world now (id, s) m = ground arith

pub rearm_listeners-table :
    (world : World) (now : Time) (l : List (ℕ × ℕ)) (m : Manager)
    → (rearm_listeners world now l m).table ≡ m.table
unfolding rearm_listeners
rearm_listeners-table world now [] m = refl
rearm_listeners-table world now (l ∷ ls) m =
    rearm_listeners-table world now ls (rearm_listener world now l m)
    ∙ rearm_listener-table world now l m

module _ (world : World) (now : Time) (positive : 0 < now) where
  start_deadline-Advances : (p : ℕ) (m : Manager) → Steps m (start_deadline world p now m)
  unfolding start_deadline
  start_deadline-Advances p m =
      Steps-if m _ (stop_failed world p now m) m (λ h. stop_failed-Advances world now positive p m)
        (λ h. Advances-refl m.table)

  request_deadlines-Advances :
      (p : ℕ) (l : List (Text × Time)) (m : Manager) → Steps m (request_deadlines world p now l m)
  unfolding request_deadlines
  request_deadlines-Advances p [] m = Advances-refl m.table
  request_deadlines-Advances p ((id, since) ∷ rest) m =
      Advances-trans
        (Steps-if m _ (stop_failed world p now m) m
          (λ h. stop_failed-Advances world now positive p m) (λ h. Advances-refl m.table))
        (request_deadlines-Advances p rest _)

  watch_requests-Advances : (p : ℕ) (m : Manager) → Steps m (watch_requests world p now m)
  unfolding watch_requests
  watch_requests-Advances p m =
      Steps-if m _ (request_deadlines world p now _ m) m (λ h. request_deadlines-Advances p _ m)
        (λ h. Advances-refl m.table)

  watch_running-Advances : (p : ℕ) (m : Manager) → Steps m (watch_running world p now m)
  unfolding watch_running
  watch_running-Advances p m =
      let m1 = start_deadline world p now m in
      let m2 = try_probe p now m1 in
      let m3 = watch_requests world p now m2 in
      Steps-if m _ (stop_failed world p now m) (forgive p now m3)
        (λ h. stop_failed-Advances world now positive p m)
        (λ h. Advances-trans (start_deadline-Advances p m) (
          Advances-trans (try_probe-Advances p now m1) (
            Advances-trans (watch_requests-Advances p m2)
              (Advances-same _ _ (sym (forgive-table p now m3))))))

  pub watch_worker-Advances : (p : ℕ) (m : Manager) → Steps m (watch_worker world p now m)
  unfolding watch_worker
  watch_worker-Advances p m =
      let stopping = not (unset (m.table.process p).stopping) in
      let later = if stopping then enforce_stop p now m else watch_running world p now m in
      Steps-if m (m.table.process p).exited m later (λ h. Advances-refl m.table)
        (λ h.
          Steps-if m stopping (enforce_stop p now m) (watch_running world p now m)
            (λ s. enforce_stop-Advances p now m (not-true _ s)) (λ s. watch_running-Advances p m))

  -- One round of the loop over the workers advances the table.
  pub supervise-Advances : (p : ℕ) (m : Manager) → Steps m (supervise world now p m)
  unfolding supervise
  supervise-Advances p m =
      Advances-trans (lifecycle-Advances world p now m)
        (watch_worker-Advances p (lifecycle world p now m))
