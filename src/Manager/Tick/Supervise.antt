-- ===== src/Manager/Tick/Supervise.antt =====
-- The first loops of `tick`: listeners that are watched again, and the deadlines of each worker.
use ooth.Prelude.{
  ℕ, ◌+◌, ◌*◌, Bool, true, false, not, ◌||◌, ◌&&◌, Option, none, some, List, [], ◌∷◌, leb,
  if◌then◌else◌,
}
use ooth.Prelude.Signed.{pos, ltb_ℤ}
use ooth.Prelude.Texts.{Text, codes, text_eq}
use ooth.Schedule.Times.{Time, unset, reached, second}
use ooth.Manager.State.{
  Process, Listener, Manager, kill, probe, rearm, with_process, with_service, with_hooks, emit,
}
use ooth.Manager.Lifecycle.{World, lifecycle}
use ooth.Manager.Messages.{stop_failed}

unfoldable pub is_rearmed : Time → Option Listener → Bool
is_rearmed now none = false
is_rearmed now (some l) = not (unset l.rearm_at) && leb l.rearm_at now

abbrev pub disarm : Option Listener → Option Listener
disarm none = none
disarm (some l) = some (record l { rearm_at = 0 })

unfoldable pub rearm_listener : World → Time → ℕ × ℕ → Manager → Manager
rearm_listener world now (id, s) m =
    if is_rearmed now (m.service s).listener
    then with_hooks (emit (rearm id)) (
        with_service s (λ s. record s { listener = disarm s.listener })
          (record m { fatal = m.fatal || world.rearm_fails id now }))
    else m

unfoldable pub rearm_listeners : World → Time → List (ℕ × ℕ) → Manager → Manager
rearm_listeners world now [] m = m
rearm_listeners world now (l ∷ ls) m = rearm_listeners world now ls (rearm_listener world now l m)

abbrev pub mark_killed : Process → Process
mark_killed c = record c { killed = true }

abbrev pub mark_probing : Process → Process
mark_probing c = record c { probing = true }

-- A stopping worker that outlives its graceful timeout is killed, once.
unfoldable pub enforce_stop : ℕ → Time → Manager → Manager
enforce_stop p now m =
    let c = m.table.process p in
    if not c.pending && not c.killed && reached now c.stopping c.config.stop_timeout
    then with_hooks (emit (kill p)) (with_process p mark_killed m)
    else m

unfoldable pub start_deadline : World → ℕ → Time → Manager → Manager
start_deadline world p now m =
    let c = m.table.process p in
    if not c.was_ready && not c.ready && reached now c.started c.config.start_timeout
    then stop_failed world p now m
    else m

-- Whether the base check of `ready: tcp://…` or `unix://…` is to be tried.
unfoldable pub needs_probe : Time → Process → Bool
needs_probe now c =
    not c.pending
    && not c.base_ready
    && not (text_eq c.config.ready (codes "event"))
    && not (text_eq c.config.ready (codes "started"))
    && not c.probing
    && leb c.next_probe now
    && unset c.stopping

unfoldable pub try_probe : ℕ → Time → Manager → Manager
try_probe p now m =
    if needs_probe now (m.table.process p)
    then with_hooks (emit (probe p)) (with_process p mark_probing m)
    else m

unfoldable pub request_deadlines : World → ℕ → Time → List (Text × Time) → Manager → Manager
request_deadlines world p now [] m = m
request_deadlines world p now ((id, since) ∷ rest) m = request_deadlines world p now rest (
    if reached now since (m.table.process p).config.request_timeout
    then stop_failed world p now m
    else m)

unfoldable pub watch_requests : World → ℕ → Time → Manager → Manager
watch_requests world p now m =
    let c = m.table.process p in
    if ltb_ℤ (pos 0) c.config.request_timeout then request_deadlines world p now c.active m else m

-- Ten seconds of readiness clear the failures of the service.
unfoldable pub forgive : ℕ → Time → Manager → Manager
forgive p now m =
    let c = m.table.process p in
    if c.ready && unset c.stopping && leb (c.started + 10 * second) now
    then with_service c.service (λ s. record s { failures = 0 }) m
    else m

unfoldable pub is_overdue : Time → Process → Bool
is_overdue now c =
    ltb_ℤ (pos 0) c.config.max_exec_time
    && not (unset c.executed)
    && reached now c.executed c.config.max_exec_time

-- A worker that neither has exited nor stops.
unfoldable pub watch_running : World → ℕ → Time → Manager → Manager
watch_running world p now m =
    if is_overdue now (m.table.process p)
    then stop_failed world p now m
    else forgive p now (watch_requests world p now (try_probe p now (start_deadline world p now m)))

unfoldable pub watch_worker : World → ℕ → Time → Manager → Manager
watch_worker world p now m =
    if (m.table.process p).exited
    then m
    else if not (unset (m.table.process p).stopping)
    then enforce_stop p now m
    else watch_running world p now m

-- One round of the loop over the workers.
unfoldable pub supervise : World → Time → ℕ → Manager → Manager
supervise world now p m = watch_worker world p now (lifecycle world p now m)
