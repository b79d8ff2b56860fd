-- ===== src/Manager/Lifecycle.antt =====
-- `lifecycle`, `stop` and `signalStop`: how a worker moves from its start through readiness to its
-- stop, its exit and its removal.
pub mod Evolution
pub mod Progress
use ooth.Prelude.{
  ℕ, Bool, true, false, not, ◌||◌, ◌&&◌, Option, none, some, List, all, if◌then◌else◌, is_empty,
}
use ooth.Schedule.Times.{Time, Duration, Calendar, unset, reached}
use ooth.Prelude.Texts.{Text}
use ooth.Manager.State.{
  Event, pre_stop, post_stop, post_start, readiness, health, worker_scope, app_scope, Process,
  Cycle, Service, Manager, Hooks, write_stop, send_signal, with_process, with_service, with_cycle,
  with_hooks, emit, delete,
}
use ooth.Manager.Floats.{Floats}
use ooth.Manager.Pressure.{observe_pressure, backoff}
use ooth.Manager.Hooks.{phase, cancel_phase, cancel_checks}
use ooth.Manager.Dependencies.{dependencies_ready}

-- What the operating system answers: whether the stop line reaches the worker's stdin, what a start
-- yields (`none` is an error), whether watching a listener again fails, the local calendar, whether
-- an app's listener can be opened, and watched, whether its socket's permissions can be set, and
-- whether finishing those permissions fails. `time.ParseDuration` stands here too.
pub record Launched : Type 0 where
  pub pid : ℕ
  pub executed : Time
  pub control : Bool

pub record World : Type 0 where
  pub stop_written : ℕ → Time → Bool
  pub launch : ℕ → Time → Option Launched
  pub rearm_fails : ℕ → Time → Bool
  pub calendar : Time → Calendar
  pub listener_opens : Text → Bool
  pub listener_arms : Text → Bool
  pub socket_permitted : Text → Bool
  pub permission_fails : Text → Bool
  pub parse_duration : Text → Option Duration
  pub floats : Floats

-- The writes to a worker's fields.
abbrev pub not_ready : Process → Process
not_ready c = record c { ready = false }

abbrev pub publish : Bool → Process → Process
publish ready c = record c { ready = ready; was_ready = c.was_ready || ready }

abbrev pub mark_sent : Process → Process
mark_sent c = record c { stop_sent = true }

abbrev pub abandon : Process → Process
abandon c = record c { stop_sent = true; exited = true }

abbrev pub mark_stopping : Time → Process → Process
mark_stopping now c = record c { stopping = now; ready = false }

unfoldable pub signal_stop : World → ℕ → Time → Manager → Manager
signal_stop world p now m =
    let c = m.table.process p in
    if c.telemetry && c.control && world.stop_written p now
    then with_hooks (emit (write_stop p)) m
    else with_hooks (emit (send_signal p)) m

-- The three `delete` of a worker that is done.
unfoldable pub forget : ℕ → Manager → Manager
forget p m =
    let c = m.table.process p in
    with_cycle c.cycle (λ d. record d { members = delete p d.members })
      (with_service c.service (λ s. record s { workers = delete p s.workers })
        (record m { table = record m.table { workers = delete p m.table.workers } }))

unfoldable pub after_exit : ℕ → Time → Manager → Manager
after_exit p now m =
    let c = m.table.process p in
    let d = m.cycle c.cycle in
    let (h, worker_done) =
      phase (worker_scope p) c.config post_stop now
        (cancel_phase (worker_scope p) pre_stop m.hooks) in
    let (h', app_done) =
      if all (λ q. (m.table.process q).exited) d.members
      then phase (app_scope c.cycle) d.config post_stop now
          (cancel_phase (app_scope c.cycle) pre_stop h)
      else (h, true) in
    let m' = record m { hooks = h' } in if worker_done && app_done then forget p m' else m'

-- A worker that was never launched has nothing to signal: it counts as exited.
unfoldable pub send_stop : World → ℕ → Time → Manager → Manager
send_stop world p now m =
    if (m.table.process p).pending
    then with_process p abandon m
    else signal_stop world p now (with_process p mark_sent m)

unfoldable pub while_stopping : World → ℕ → Time → Manager → Manager
while_stopping world p now m =
    let c = m.table.process p in
    let d = m.cycle c.cycle in
    let (h, worker_done) = phase (worker_scope p) c.config pre_stop now m.hooks in
    let (h', app_done) =
      if d.retiring then phase (app_scope c.cycle) d.config pre_stop now h else (h, true) in
    let m' = record m { hooks = h' } in
    if not c.stop_sent
      && ((worker_done && app_done) || reached now c.stopping c.config.stop_timeout)
    then send_stop world p now m'
    else m'

-- Both scopes' hooks for one event; the worker's come first.
unfoldable pub both_phases : ℕ → Event → Time → Manager → Manager × Bool
both_phases p event now m =
    let c = m.table.process p in
    let (h, worker_ok) = phase (worker_scope p) c.config event now m.hooks in
    let (h', app_ok) = phase (app_scope c.cycle) (m.cycle c.cycle).config event now h in
    (record m { hooks = h' }, worker_ok && app_ok)

unfoldable pub judge_health : ℕ → Time → Manager → Manager
unfolding both_phases
judge_health p now m =
    let (m', healthy) = both_phases p health now m in
    let ready = healthy && dependencies_ready m' (m.table.process p).config true in
    with_process p (publish ready) m'

unfoldable pub after_start : ℕ → Time → Manager → Manager
unfolding both_phases
after_start p now m =
    let (m', is_ready) = both_phases p readiness now m in
    if not is_ready then with_process p not_ready m' else judge_health p now m'

unfoldable pub while_running : ℕ → Time → Manager → Manager
unfolding both_phases
while_running p now m =
    let (m', started) = both_phases p post_start now m in
    if not (m.table.process p).base_ready || not started
    then with_process p not_ready m'
    else after_start p now m'

unfoldable pub lifecycle : World → ℕ → Time → Manager → Manager
lifecycle world p now m =
    let c = m.table.process p in
    if c.exited
    then after_exit p now m
    else if not (unset c.stopping)
    then while_stopping world p now m
    else if c.pending
    then m
    else while_running p now m

-- A cycle none of whose members is active any more.
unfoldable pub is_retired : Manager → ℕ → Bool
is_retired m cycle =
    all (λ q. not (unset (m.table.process q).stopping) || (m.table.process q).exited)
      (m.cycle cycle).members

unfoldable pub retire : ℕ → Manager → Manager
retire cycle m =
    if is_retired m cycle
    then with_hooks (cancel_checks (app_scope cycle))
        (with_cycle cycle (λ d. record d { retiring = true }) m)
    else m

-- Replacements can start before a failed process exits: the failure is throttled now.
unfoldable pub throttle : ℕ → Time → Manager → Manager
throttle p now m =
    let c = m.table.process p in
    if c.failed && is_empty c.config.schedule
    then with_service c.service (λ s. backoff now (record s { demand = true })) m
    else m

unfoldable pub observe_service : World → ℕ → Time → Manager → Manager
observe_service world s now m = with_service s (observe_pressure world.floats m.table.process now) m

-- The body of `stop` for a worker that is not stopping yet.
unfoldable pub begin_stop : World → ℕ → Time → Manager → Manager
begin_stop world p now m =
    let marked = with_process p (mark_stopping now) m in
    let cancelled = with_hooks (cancel_checks (worker_scope p)) marked in
    lifecycle world p now (throttle p now (retire (m.table.process p).cycle cancelled))

unfoldable pub stop : World → ℕ → Time → Manager → Manager
unfolding observe_service
stop world p now m =
    let c = m.table.process p in
    observe_service world c.service now (if unset c.stopping then begin_stop world p now m else m)
