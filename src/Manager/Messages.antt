-- ===== src/Manager/Messages.antt =====
-- `handle` and `actionResult`: what the supervisor does with a message of its channel.
pub mod Progress
pub mod Failures
pub mod Requests
use ooth.Prelude.{
  ℕ, zero, suc, ◌+◌, ◌-◌, ◌*◌, Bool, true, false, not, ◌||◌, ◌&&◌, Option, none, some, List, [],
  ◌∷◌, map, any, if◌then◌else◌, is_empty, get_elem?, ◌==◌,
}
use ooth.Prelude.Signed.{ℤ, pos, ltb_ℤ}
use ooth.Prelude.Texts.{Text, codes, text_eq}
use ooth.Prelude.Maps.{lookup, insert, remove}
use ooth.Schedule.Times.{Time, unset, millisecond}
use ooth.Config.App.{awaited}
use ooth.Protocol.Wire.{WireEvent}
use ooth.Manager.State.{
  Event, Scope, worker_scope, app_scope, Run, Process, Service, Listener, Manager, Hooks,
  with_process, with_service, with_hooks,
}
use ooth.Manager.Pressure.{backoff}
use ooth.Manager.Hooks.{cancel_checks, finish_run, set_runs}
use ooth.Manager.Lifecycle.{World, lifecycle, retire, observe_service, stop}

-- What a worker's goroutines report.
pub data News : Type 0 where
  exited : Option ℤ → Bool → News
  probed : Bool → News
  handshake : Bool → News
  stream_failed : News
  telemetry : WireEvent → News

-- `message`: a hook's result, the listeners of a poll with their error bits, or news of a worker.
pub data Message : Type 0 where
  action_done : Scope → Event → ℕ → Bool → Message
  poll_failed : Message
  polled : List (ℕ × Bool) → Message
  worker : ℕ → News → Message

abbrev pub fail : Process → Process
fail c = record c { failed = true }

-- `child.failed = true` and `stop`
unfoldable pub stop_failed : World → ℕ → Time → Manager → Manager
stop_failed world p now m = stop world p now (with_process p fail m)

-- The closure `stop` of `actionResult`.
unfoldable pub stop_current : World → Time → ℕ → Manager → Manager
stop_current world now p m =
    let c = m.table.process p in
    if unset c.stopping && not c.exited then stop_failed world p now m else m

-- `for child := range set`
unfoldable pub each : List ℕ → (ℕ → Manager → Manager) → Manager → Manager
each [] body m = m
each (p ∷ ps) body m = each ps body (body p m)

abbrev replace_at : ℕ → Run → List Run → List Run
replace_at n run [] = []
replace_at zero run (r ∷ rs) = run ∷ rs
replace_at (suc n) run (r ∷ rs) = r ∷ replace_at n run rs

unfoldable pub run_list : Scope → Event → Manager → List Run
run_list scope event m = elim (m.hooks.runs scope event) [ some list ↦ list | none ↦ [] ]

unfoldable pub restarts : Bool → Run → Bool
restarts succeeded run =
    not run.cancelled
    && not succeeded
    && awaited run.binding
    && text_eq run.binding.on_failure (codes "restart")
    && not (ltb_ℤ (pos run.failures) run.binding.failure_threshold)

unfoldable pub stop_scope : World → Scope → Time → Manager → Manager
unfolding each
stop_scope world (worker_scope p) now m = stop_current world now p m
stop_scope world (app_scope c) now m = each (m.cycle c).members (stop_current world now) m

unfoldable pub store_run : Scope → Event → ℕ → Run → Manager → Manager
unfolding set_runs
store_run scope event index run m =
    let list = run_list scope event m in
    with_hooks
      (λ h. record h {
        runs = set_runs scope event (replace_at index run list) h.runs;
        tasks = h.tasks - 1;
      })
      m

unfoldable pub conclude : World → Scope → Event → ℕ → Bool → Time → Option Run → Manager → Manager
conclude world scope event index succeeded now none m = m
conclude world scope event index succeeded now (some old) m =
    let run = finish_run succeeded now old in
    let m' = store_run scope event index run m in
    if restarts succeeded run then stop_scope world scope now m' else m'

unfoldable pub action_result : World → Scope → Event → ℕ → Bool → Time → Manager → Manager
action_result world scope event index succeeded now m =
    conclude world scope event index succeeded now (get_elem? (run_list scope event m) index) m

unfoldable pub find_listener : ℕ → List (ℕ × ℕ) → Option ℕ
find_listener id [] = none
find_listener id ((j, s) ∷ rest) = if j == id then some s else find_listener id rest

abbrev pub rearmed : Time → Option Listener → Option Listener
rearmed now none = none
rearmed now (some l) = some (record l { rearm_at = now + 25 * millisecond })

-- One event of `EpollWait`: a listener that failed is fatal, any other asks for a worker.
unfoldable pub listener_event : Time → ℕ × Bool → Manager → Manager
listener_event now (id, failed) m = elim (find_listener id m.listeners) [
  | none ↦ m
  | some s ↦
      if failed
      then record m { fatal = true }
      else with_service s (λ s. record s { demand = true; listener = rearmed now s.listener }) m
]

-- A worker that exits by itself asks for a replacement, after a delay.
unfoldable pub replace_exited : ℕ → Time → Manager → Manager
replace_exited p now m =
    let c = m.table.process p in
    if unset c.stopping && is_empty c.config.schedule
    then with_service c.service (λ s. backoff now (record s { demand = true })) m
    else m

abbrev pub mark_exited : Option ℤ → Process → Process
mark_exited code c = record c {
  exited = true;
  ready = false;
  exit_code = elim code [ some n ↦ n | none ↦ c.exit_code ];
}

unfoldable pub handle_exit : World → ℕ → Option ℤ → Bool → Time → Manager → Manager
handle_exit world p code cleanup_failed now m =
    let noted = record m { fatal = m.fatal || cleanup_failed } in
    let marked =
      with_hooks (cancel_checks (worker_scope p)) (with_process p (mark_exited code) noted) in
    lifecycle world p now (retire (m.table.process p).cycle (replace_exited p now marked))

abbrev pub mark_probed : Bool → Time → Process → Process
mark_probed passed now c = record c {
  probing = false;
  next_probe = now + 100 * millisecond;
  base_ready = c.base_ready || passed;
  idle_since = if passed then now else c.idle_since;
}

abbrev pub mark_handshake : Bool → Time → Process → Process
mark_handshake protocol now c = record c {
  telemetry = protocol;
  base_ready = c.base_ready || (protocol && text_eq c.config.ready (codes "event"));
  idle_since = if protocol then now else c.idle_since;
}

unfoldable pub handle_handshake : World → ℕ → Bool → Time → Manager → Manager
handle_handshake world p protocol now m =
    let m' = with_process p (mark_handshake protocol now) m in
    if not protocol && text_eq (m.table.process p).config.ready (codes "event")
    then stop_failed world p now m'
    else m'

-- `child.active[id]`, which is the zero time for an absent request.
unfoldable pub active_since : Text → Process → Time
active_since id c = elim (lookup id c.active) [ some t ↦ t | none ↦ 0 ]

abbrev pub begin_request : Text → Time → Process → Process
begin_request id now c = record c { active = insert id now c.active; idle_since = 0 }

abbrev pub end_request : Text → Time → Process → Process
end_request id now c =
    let rest = remove id c.active in
    record c { active = rest; idle_since = if is_empty rest then now else c.idle_since }

unfoldable pub request_start : World → ℕ → Text → Time → Manager → Manager
unfolding active_since
request_start world p id now m =
    let c = m.table.process p in
    if not c.telemetry || is_empty id || not (unset (active_since id c))
    then stop_failed world p now m
    else with_process p (begin_request id now) m

unfoldable pub request_end : World → ℕ → Text → Time → Manager → Manager
unfolding active_since
request_end world p id now m =
    if unset (active_since id (m.table.process p))
    then stop_failed world p now m
    else with_process p (end_request id now) m

unfoldable pub handle_event : World → ℕ → WireEvent → Time → Manager → Manager
handle_event world p event now m =
    if text_eq event.type (codes "ready")
    then stop_failed world p now m
    else if text_eq event.type (codes "start")
    then request_start world p event.id now m
    else if text_eq event.type (codes "end")
    then request_end world p event.id now m
    else m

unfoldable pub handle_news : World → ℕ → News → Time → Manager → Manager
handle_news world p (exited code cleanup_failed) now m =
    handle_exit world p code cleanup_failed now m
handle_news world p (probed passed) now m = with_process p (mark_probed passed now) m
handle_news world p (handshake protocol) now m = handle_handshake world p protocol now m
handle_news world p stream_failed now m =
    if unset (m.table.process p).stopping then stop_failed world p now m else m
handle_news world p (telemetry event) now m = handle_event world p event now m

unfoldable pub listener_events : Time → List (ℕ × Bool) → Manager → Manager
listener_events now [] m = m
listener_events now (e ∷ es) m = listener_events now es (listener_event now e m)

-- News of a worker that is gone is dropped; any other ends with the deferred `observePressure`.
unfoldable pub handle : World → Message → Time → Manager → Manager
unfolding listener_events
handle world (action_done scope event index succeeded) now m =
    action_result world scope event index succeeded now m
handle world poll_failed now m = record m { fatal = true }
handle world (polled events) now m = listener_events now events m
handle world (worker p news) now m =
    if any (λ q. q == p) m.table.workers
    then observe_service world (m.table.process p).service now (handle_news world p news now m)
    else m
