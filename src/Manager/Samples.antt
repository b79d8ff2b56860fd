-- ===== src/Manager/Samples.antt =====
-- A supervisor with one worker, on which the tests and the instances of the theorems are.
pub mod Runs
pub mod Parts
pub mod Failures
use ooth.Prelude.{
  In, get_elem?, ◌+◌, ◌-◌, ◌*◌, ◌%◌, ◌≤◌, ◌<◌, ◌≡◌, ◌⊎◌, ◌↔◌, inl, refl, Bool, true, false, none,
  if◌then◌else◌, ltb, leb, some, [], ◌∷◌, arith,
}
use mathlib.Core.Bool.{false≢true}
use ooth.Prelude.Signed.{pos}
use ooth.Prelude.Texts.{codes}
use ooth.Prelude.Maps.{lookup}
use ooth.Schedule.Times.{Time, Calendar, millisecond, second}
use ooth.Schedule.Plan.{empty_plan, parse_schedule}
use ooth.Config.App.{App, Trigger, Socket, one_percent}
use ooth.Resources.{ResourceLimits, ResourceSample, blocked}
use ooth.Resources.Gate.{IsFresh, HasRoom, blocked-HasRoom}
use ooth.Manager.State.{
  app_scope, Run, health, worker_scope, Process, Service, Manager, Hooks, PressureWindow,
}
use ooth.Manager.Floats.{Floats}
use ooth.Manager.Pressure.{delay_after, backoff, observe_pressure, evaluate}
use ooth.Manager.Hooks.{
  phase, phase_runs, bindings, set_runs, launch_run, is_due, count_due, due_effects, cancel_phase,
}
use ooth.Manager.Hooks.Phases.{phase-twice}
use ooth.Manager.Lifecycle.{World, lifecycle, after_exit, forget}
use ooth.Manager.Messages.{each, run_list, action_result}
use ooth.Manager.Messages.Failures.{IsHalted, IsRestarting, action_result-IsHalted}
use ooth.Manager.Lifecycle.Evolution.{IsSound, Evolves}
use ooth.Manager.Launch.{new_process, no_runs}
use ooth.Manager.Launch.{
  spawn, open_cycle, reserve, before_start, after_start_process, start_process,
}
use ooth.Manager.Launch.Failure.{LeavesNone, spawn_failed}
use ooth.Manager.Tick.Demand.{next_cadence}
use ooth.Manager.Tick.Cadence.{next_cadence_lem}
use ooth.Manager.Tick.Supervise.{supervise, watch_worker}
use ooth.Manager.Tick.Shutdown.{drain, stop_unrequired}
use ooth.Manager.Tick.Turn.{tick}
use ooth.Manager.Tick.Deadlines.{IsEnded, tick-IsEnded}
use ooth.Manager.Apply.Stage.{
  Snapshot, not_opened, read_plans, open_all, open_one, keeps_listener, service_of,
}
use ooth.Manager.Apply.Commit.{apply, apply_plans, permit}
use ooth.Manager.Apply.Atomic.{IsUntouched, apply_refused}
use ooth.Manager.Loop.{
  Loop, sampled, ticked, check_fatal, is_over, round, react, take_tick, retry_pending,
}
use ooth.Manager.Loop.Reach.{Reach, here, next, Reach-IsSound, Reach-Evolves, is_over-exited}

abbrev pub midnight : Time → Calendar
midnight t = record { minute_of_hour = 0; hour = 0; day = 1; month = 1; weekday = 1 }

-- Numbers that are rounded to whole ones.
abbrev pub floats : Floats
floats = record {
  of_int = λ n. n;
  of_percent = λ p. p;
  seconds = λ n. n;
  add = λ x y. x + y;
  mul = λ x y. x * y;
  div = λ x y. if ltb y x then 2 else 1;
  at_least = λ x y. leb y x;
}

abbrev pub world : World
world = record {
  stop_written = λ p t. true;
  launch = λ p t. some (record { pid = p + 100; executed = t; control = true });
  rearm_fails = λ l t. false;
  calendar = midnight;
  listener_opens = λ name. false;
  listener_arms = λ name. true;
  socket_permitted = λ name. true;
  permission_fails = λ name. false;
  parse_duration = λ text. none;
  floats = floats;
}

abbrev pub no_socket : Socket
no_socket = record { network = []; address = [] }

abbrev pub health_check : Trigger
health_check = record {
  action = codes "ping";
  scope = codes "worker";
  wait = none;
  interval = pos second;
  failure_threshold = pos 3;
  on_failure = codes "restart";
}

abbrev pub app : App
app = record {
  identity = record { user = []; group = []; password = none };
  name = codes "web";
  requires = [];
  conditions = [];
  actions = [];
  triggers = (codes "health", health_check ∷ []) ∷ [];
  schedule = [];
  overlap = false;
  max_exec_time = pos 0;
  startup = true;
  ready = codes "started";
  command = codes "serve" ∷ [];
  directory = [];
  env = [];
  vars = [];
  restart_on = [];
  listen = no_socket;
  socket_handoff = [];
  socket_mode = none;
  min_workers = pos 1;
  max_workers = pos 2;
  concurrency = pos 4;
  idle_timeout = pos second;
  start_timeout = pos second;
  stop_timeout = pos second;
  request_timeout = pos 0;
  scale_at = 80 * one_percent;
  scale_window = pos second;
  scale_delay = pos 0;
  values = [];
  source = codes "web.yml";
}

-- A launched worker that was told to stop at the time 5.
abbrev pub stopping_worker : Process
stopping_worker = record (new_process 0 0 app 1) { pending = false; stopping = 5; stop_sent = true }

abbrev pub ready_worker : Process
ready_worker = record (new_process 0 0 app 1) {
  pending = false;
  base_ready = true;
  ready = true;
  was_ready = true;
  telemetry = true;
  active = (codes "a", 2) ∷ [];
}

-- A stopped worker whose application has no hooks left to run.
abbrev pub exited_worker : Process
exited_worker = record stopping_worker { exited = true }

abbrev pub window : PressureWindow
window = record { since = 1; last = 3; value = 1; area = 2; workers = 1 }

abbrev pub service : Service
service = record {
  schedule = empty_plan;
  next_run = 0;
  scheduled = false;
  cycle = some 0;
  name = codes "web";
  config = app;
  listener = none;
  workers = 0 ∷ [];
  demand = false;
  pressure = window;
  retry_at = 0;
  failures = 2;
  unneeded_since = 0;
}

abbrev pub hooks : Hooks
hooks = record { runs = λ scope. no_runs; tasks = 0; effects = [] }

abbrev pub sample : ResourceSample
sample = record { at = 1; cpu = one_percent; available_memory = 9 * one_percent; failed = false }

abbrev pub limits : ResourceLimits
limits = record { max_cpu = 90 * one_percent; min_available_memory = 5 * one_percent }

abbrev pub manager : Process → Manager
manager worker = record {
  table = record { process = λ p. worker; workers = 0 ∷ []; count = 1 };
  hooks = hooks;
  cycle = λ c. record { members = 0 ∷ []; retiring = false; config = app };
  cycles = 1;
  service = λ s. service;
  service_count = 1;
  services = (codes "web", 0) ∷ [];
  listeners = [];
  fatal = false;
  cgroup = [];
  next_listener = 0;
  resource_limits = limits;
  resources = sample;
  resource_block = none;
}

abbrev pub loop : Bool → Process → Loop
loop stopping worker = record {
  manager = manager worker;
  stopping = stopping;
  pending = none;
  retry_config = 0;
}
