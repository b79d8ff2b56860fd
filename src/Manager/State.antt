-- ===== src/Manager/State.antt =====
-- The state of the supervisor. Go's pointers are identifiers into tables: a process, a lifecycle
-- cycle and a service is a number. A process belongs to a worker scope of its own; a cycle has the
-- app scope. What the supervisor asks of the operating system is a list of effects, newest first.
use ooth.Prelude.{ℕ, Bool, not, Option, List, ◌∷◌, ◌==◌, if◌then◌else◌, keep_if}
use ooth.Prelude.Signed.{ℤ}
use ooth.Prelude.Texts.{Text}
use ooth.Schedule.Times.{Time}
use ooth.Manager.Floats.{Float64}
use ooth.Schedule.Plan.{Plan}
use ooth.Config.App.{App, Trigger}
use ooth.Resources.{ResourceLimits, ResourceSample, Reason}

pub data Event : Type 0 where
  pre_start post_start pre_stop post_stop readiness health : Event

pub data Scope : Type 0 where
  worker_scope : ℕ → Scope
  app_scope : ℕ → Scope

-- `actionRun`, without its scope and event, which are its place in the table.
pub record Run : Type 0 where
  pub binding : Trigger
  pub running : Bool
  pub done : Bool
  pub success : Bool
  pub cancelled : Bool
  pub failures : ℕ
  pub next : Time

-- `scope.runs`: no entry until the phase is first asked for.
abbrev pub Runs : Type 0
Runs = Event → Option (List Run)

pub record Process : Type 0 where
  pub was_ready : Bool
  pub pending : Bool
  pub exited : Bool
  pub base_ready : Bool
  pub stop_sent : Bool
  pub exit_code : ℤ
  pub cycle : ℕ
  pub pid : ℕ
  pub control : Bool
  pub service : ℕ
  pub ready : Bool
  pub telemetry : Bool
  pub active : List (Text × Time)
  pub started : Time
  pub executed : Time
  pub idle_since : Time
  pub stopping : Time
  pub killed : Bool
  pub failed : Bool
  pub probing : Bool
  pub next_probe : Time
  pub config : App

pub record Cycle : Type 0 where
  pub members : List ℕ
  pub retiring : Bool
  pub config : App

-- `pressureWindow`, whose zero value is the number 0 in every field.
pub record PressureWindow : Type 0 where
  pub since : Time
  pub last : Time
  pub value : Float64
  pub area : Float64
  pub workers : ℕ

pub record Listener : Type 0 where
  pub id : ℕ
  pub rearm_at : Time

pub record Service : Type 0 where
  pub schedule : Plan
  pub next_run : Time
  pub scheduled : Bool
  pub cycle : Option ℕ
  pub name : Text
  pub config : App
  pub listener : Option Listener
  pub workers : List ℕ
  pub demand : Bool
  pub pressure : PressureWindow
  pub retry_at : Time
  pub failures : ℕ
  pub unneeded_since : Time

pub data Effect : Type 0 where
  start_action cancel_action : Scope → Event → ℕ → Effect
  write_stop send_signal kill probe : ℕ → Effect
  rearm close_listener : ℕ → Effect

-- The processes and the set `manager.workers`; `count` identifiers are in use.
pub record Table : Type 0 where
  pub process : ℕ → Process
  pub workers : List ℕ
  pub count : ℕ

-- The hooks of every scope, `actionTasks`, and the effects.
pub record Hooks : Type 0 where
  pub runs : Scope → Runs
  pub tasks : ℕ
  pub effects : List Effect

pub record Manager : Type 0 where
  pub table : Table
  pub hooks : Hooks
  pub cycle : ℕ → Cycle
  pub cycles : ℕ
  pub service : ℕ → Service
  pub service_count : ℕ
  pub services : List (Text × ℕ)
  pub listeners : List (ℕ × ℕ)
  pub fatal : Bool
  pub cgroup : Text
  pub next_listener : ℕ
  pub resource_limits : ResourceLimits
  pub resources : ResourceSample
  pub resource_block : Option Reason

-- A write through a pointer.
module _ {A : Type 0} where
  abbrev pub update : (ℕ → A) → ℕ → A → ℕ → A
  update f k a i = if i == k then a else f i

-- delete(set, id)
abbrev pub delete : ℕ → List ℕ → List ℕ
delete k = keep_if (λ i. not (i == k))

-- set[id] = struct{}{}
abbrev pub adjoin : ℕ → List ℕ → List ℕ
adjoin k l = k ∷ delete k l

abbrev pub with_process : ℕ → (Process → Process) → Manager → Manager
with_process p f m = record m {
  table = record m.table { process = update m.table.process p (f (m.table.process p)) };
}

abbrev pub with_service : ℕ → (Service → Service) → Manager → Manager
with_service s f m = record m { service = update m.service s (f (m.service s)) }

abbrev pub with_cycle : ℕ → (Cycle → Cycle) → Manager → Manager
with_cycle c f m = record m { cycle = update m.cycle c (f (m.cycle c)) }

abbrev pub with_hooks : (Hooks → Hooks) → Manager → Manager
with_hooks f m = record m { hooks = f m.hooks }

abbrev pub emit : Effect → Hooks → Hooks
emit e h = record h { effects = e ∷ h.effects }
