-- ===== src/Manager/Launch.antt =====
-- `spawn`, and what `startProcess` changes in the supervisor once the operating system has answered.
pub mod Progress
pub mod Failure
use ooth.Prelude.{
  ℕ, suc, ◌+◌, Bool, true, false, not, ◌||◌, ◌&&◌, Option, none, some, List, [], ◌∷◌, if◌then◌else◌,
  is_empty,
}
use ooth.Prelude.Signed.{ℤ, negsuc}
use ooth.Prelude.Texts.{Text, codes, text_eq}
use ooth.Schedule.Times.{Time}
use ooth.Config.App.{App}
use ooth.Manager.State.{
  Event, pre_start, Scope, worker_scope, app_scope, Runs, Process, Cycle, Service, Manager, Table,
  with_process, with_service, with_cycle, with_hooks, adjoin, delete, update,
}
use ooth.Manager.Hooks.{phase, cancel_checks, same_scope}
use ooth.Manager.Lifecycle.{World, Launched, lifecycle}

-- The fields that `startProcess` sets, from the configuration of the service.
abbrev pub mark_launched : Launched → App → Time → Process → Process
mark_launched l app now c = record c {
  pid = l.pid;
  control = l.control;
  pending = false;
  executed = l.executed;
  base_ready = c.base_ready || text_eq app.ready (codes "started");
  idle_since = if text_eq app.ready (codes "started") then now else c.idle_since;
}

unfoldable pub launched : ℕ → Launched → Time → Manager → Manager
launched p l now m =
    let s = (m.table.process p).service in
    let marked = with_process p (mark_launched l (m.service s).config now) m in
    let joined = record marked {
      table = record marked.table { workers = adjoin p marked.table.workers };
    } in
    with_service s (λ s. record s { workers = adjoin p s.workers; demand = false }) joined

-- A started process, or `none` for an error, which changes nothing.
unfoldable pub start_process : World → ℕ → Time → Manager → Option Manager
start_process world p now m = elim (world.launch p now) [
  | none ↦ none
  | some l ↦ some (launched p l now m)
]

-- `&process{pending: true, …}`
abbrev pub new_process : ℕ → ℕ → App → Time → Process
new_process s cycle config now = record {
  was_ready = false;
  pending = true;
  exited = false;
  base_ready = false;
  stop_sent = false;
  exit_code = negsuc 0;
  cycle = cycle;
  pid = 0;
  control = false;
  service = s;
  ready = false;
  telemetry = false;
  active = [];
  started = now;
  executed = 0;
  idle_since = 0;
  stopping = 0;
  killed = false;
  failed = false;
  probing = false;
  next_probe = 0;
  config = config;
}

abbrev pub no_runs : Runs
no_runs event = none

-- A fresh scope has no runs.
abbrev pub new_scope : Scope → Manager → Manager
new_scope scope =
    with_hooks (λ h. record h {
      runs = λ scope'. if same_scope scope' scope then no_runs else h.runs scope';
    })

unfoldable pub fresh_cycle : ℕ → Manager → ℕ × Manager
fresh_cycle s m = (
  m.cycles,
  new_scope (app_scope m.cycles) (
      with_service s (λ r. record r { cycle = some m.cycles })
        (record m {
          cycle =
              update m.cycle m.cycles
                (record { members = []; retiring = false; config = (m.service s).config });
          cycles = m.cycles + 1;
        })),
)

-- The cycle that the new worker joins: the service's own, unless it retires or the app is scheduled.
unfoldable pub open_cycle : ℕ → Manager → ℕ × Manager
open_cycle s m = elim (m.service s).cycle [
  | none ↦ fresh_cycle s m
  | some c ↦
      if (m.cycle c).retiring || not (is_empty (m.service s).config.schedule)
      then fresh_cycle s m
      else (c, m)
]

-- The reservation: a pending worker in the three sets.
unfoldable pub reserve : ℕ → ℕ → Time → Manager → ℕ × Manager
reserve s cycle now m =
    let p = m.table.count in
    (
      p,
      new_scope (worker_scope p) (
          with_cycle cycle (λ d. record d { members = adjoin p d.members })
            (with_service s (λ r. record r { workers = adjoin p r.workers })
              (record m {
                table = record {
                  process = update m.table.process p (new_process s cycle (m.service s).config now);
                  workers = adjoin p m.table.workers;
                  count = suc m.table.count;
                };
              }))),
    )

-- A start that failed leaves no trace of the worker; a cycle that it leaves empty retires.
unfoldable pub undo_reservation : ℕ → ℕ → ℕ → Manager → Manager
undo_reservation s cycle p m =
    let out =
      with_cycle cycle (λ d. record d { members = delete p d.members })
        (with_service s (λ r. record r { workers = delete p r.workers })
          (with_hooks (cancel_checks (worker_scope p))
            (record m { table = record m.table { workers = delete p m.table.workers } }))) in
    if is_empty (out.cycle cycle).members
    then with_hooks (cancel_checks (app_scope cycle))
        (with_cycle cycle (λ d. record d { retiring = true }) out)
    else out

-- The `pre_start` hooks of the app, then of the worker.
unfoldable pub before_start : ℕ → Time → Manager → Manager × Bool
before_start p now m =
    let c = m.table.process p in
    let (h, app_ok) = phase (app_scope c.cycle) (m.cycle c.cycle).config pre_start now m.hooks in
    let (h', worker_ok) = phase (worker_scope p) c.config pre_start now h in
    (record m { hooks = h' }, app_ok && worker_ok)

unfoldable pub after_start_process :
    World → ℕ → ℕ → ℕ → Time → Manager → Option Manager → Manager × Bool
after_start_process world s cycle p now m none = (undo_reservation s cycle p m, false)
after_start_process world s cycle p now m (some launched) = (lifecycle world p now launched, true)

-- `spawn`; the test is false where it returns an error.
unfoldable pub spawn : World → ℕ → Time → Manager → Manager × Bool
spawn world s now m =
    let (cycle, m1) = open_cycle s m in
    let (p, m2) = reserve s cycle now m1 in
    let (m3, allowed) = before_start p now m2 in
    if allowed
    then after_start_process world s cycle p now m3 (start_process world p now m3)
    else (m3, true)
