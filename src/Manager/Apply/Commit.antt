-- ===== src/Manager/Apply/Commit.antt =====
-- The second half of `apply`, which cannot fail, `apply` itself, and `restart`.
use ooth.Prelude.{
  ℕ, suc, Bool, true, false, not, ◌||◌, Option, none, some, List, [], ◌∷◌, if◌then◌else◌, ◌==◌,
  Result, ok, err, any, keep_if,
}
use ooth.Prelude.Texts.{Text, text_eq}
use ooth.Prelude.Maps.{lookup, insert, remove}
use ooth.Schedule.Times.{Time, unset}
use ooth.Schedule.Plan.{Plan, empty_plan, next}
use ooth.Config.App.{App}
use ooth.Manager.State.{
  Process, Service, Listener, Manager, close_listener, with_process, with_service, with_hooks, emit,
  adjoin,
}
use ooth.Manager.Pressure.{empty_window}
use ooth.Manager.Lifecycle.{World, stop}
use ooth.Manager.Messages.{each}
use ooth.Manager.Apply.Stage.{
  Snapshot, ApplyError, cgroup_changed, same_socket, same_app, service_of, read_plans, Opened,
  open_all, permit_all, roll_back,
}

-- `closeListener`
unfoldable pub close : ℕ → Manager → Manager
close id m =
    with_hooks (emit (close_listener id))
      (record m { listeners = keep_if (λ l. not (l.0 == id)) m.listeners })

abbrev pub close_of : Option Listener → Manager → Manager
close_of none m = m
close_of (some l) m = close l.id m

-- Whether the snapshot has the service as it is configured now, and whether it keeps its listener.
unfoldable pub is_unchanged : Option App → Service → Bool
is_unchanged none r = false
is_unchanged (some app) r = same_app r.config app

unfoldable pub loses_listener : Option App → Service → Bool
loses_listener none r = true
loses_listener (some app) r = not (same_socket r.config.listen app.listen)

unfoldable pub retire_changed : World → Time → Option App → Text → ℕ → Manager → Manager
retire_changed world now found name s m =
    let stopped = each (m.service s).workers (λ p. stop world p now) m in
    if loses_listener found (m.service s)
    then record (close_of (m.service s).listener stopped) {
      services = remove name stopped.services;
    }
    else stopped

unfoldable pub retire_service : World → Time → Snapshot → Text × ℕ → Manager → Manager
retire_service world now snapshot (name, s) m =
    let found = lookup name snapshot.apps in
    if is_unchanged found (m.service s) then m else retire_changed world now found name s m

unfoldable pub retire_services : World → Time → Snapshot → List (Text × ℕ) → Manager → Manager
retire_services world now snapshot [] m = m
retire_services world now snapshot (e ∷ es) m =
    retire_services world now snapshot es (retire_service world now snapshot e m)

-- `child.service = current`
abbrev pub assign : ℕ → Process → Process
assign s c = record c { service = s }

unfoldable pub adopt : ℕ → ℕ → Manager → Manager
adopt s p m =
    with_service s (λ r. record r { workers = adjoin p r.workers }) (with_process p (assign s) m)

abbrev pub new_service : Text → App → Plan → Option Listener → Time → Service
new_service name app plan listener now = record {
  schedule = plan;
  next_run = next plan now;
  scheduled = false;
  cycle = none;
  name = name;
  config = app;
  listener = listener;
  workers = [];
  demand = false;
  pressure = empty_window;
  retry_at = 0;
  failures = 0;
  unneeded_since = 0;
}

abbrev pub listen_for : ℕ → Option Listener → List (ℕ × ℕ) → List (ℕ × ℕ)
listen_for s none l = l
listen_for s (some listener) l = (listener.id, s) ∷ keep_if (λ e. not (e.0 == listener.id)) l

abbrev pub opened_listener : Text → Opened → Option Listener
opened_listener name o = elim (lookup name o.listeners) [
  | none ↦ none
  | some id ↦ some (record { id = id; rearm_at = 0 })
]

-- The new service object, the workers of the old one, and the entries of both maps.
unfoldable pub install : Time → Text → App → Plan → Option Listener → List ℕ → Manager → Manager
install now name app plan listener workers m =
    let s = m.service_count in
    let created = record m {
      service = λ i. if i == s then new_service name app plan listener now else m.service i;
      service_count = suc s;
    } in
    let adopted = each workers (adopt s) created in
    record adopted {
      services = insert name s adopted.services;
      listeners = listen_for s listener adopted.listeners;
    }

abbrev pub plan_of : Text → List (Text × Plan) → Plan
plan_of name plans = elim (lookup name plans) [ none ↦ empty_plan | some plan ↦ plan ]

unfoldable pub install_over :
    Time → List (Text × Plan) → Opened → Text → App → Option Service → Manager → Manager
install_over now plans o name app none m =
    install now name app (plan_of name plans) (opened_listener name o) [] m
install_over now plans o name app (some r) m =
    if same_app r.config app
    then m
    else install now name app (plan_of name plans) r.listener r.workers m

unfoldable pub install_app : Time → List (Text × Plan) → Opened → Text × App → Manager → Manager
install_app now plans o (name, app) m = install_over now plans o name app (service_of name m) m

unfoldable pub install_apps :
    Time → List (Text × Plan) → Opened → List (Text × App) → Manager → Manager
install_apps now plans o [] m = m
install_apps now plans o (e ∷ es) m = install_apps now plans o es (install_app now plans o e m)

unfoldable pub commit :
    World → Time → Snapshot → List (Text × Plan) → Opened → List Text → Manager → Manager
commit world now snapshot plans o done m =
    let numbered = record m { next_listener = o.next_listener } in
    let retired = retire_services world now snapshot m.services numbered in
    let installed = install_apps now plans o snapshot.apps retired in
    record installed {
      resource_limits = snapshot.resources;
      fatal = installed.fatal || any world.permission_fails done;
    }

-- The end of `apply`: what was refused is rolled back, anything else is committed.
unfoldable pub finish :
    World
    → Time
    → Snapshot
    → List (Text × Plan)
    → Opened
    → List Text
    → Manager
    → Option ApplyError
    → Manager × Option ApplyError
finish world now snapshot plans o done m (some e) = (roll_back world o done m, some e)
finish world now snapshot plans o done m none = (commit world now snapshot plans o done m, none)

-- After the listeners: the permissions.
unfoldable pub permit :
    World
    → Time
    → Snapshot
    → List (Text × Plan)
    → Opened
    → Manager
    → Option ApplyError
    → Manager × Option ApplyError
permit world now snapshot plans o m (some e) = (roll_back world o [] m, some e)
permit world now snapshot plans o m none =
    let (done, refused) = permit_all world m snapshot.apps [] in
    finish world now snapshot plans o done m refused

unfoldable pub apply_plans :
    World
    → Time
    → Snapshot
    → Result ApplyError (List (Text × Plan))
    → Manager
    → Manager × Option ApplyError
apply_plans world now snapshot (err e) m = (m, some e)
apply_plans world now snapshot (ok plans) m =
    let (o, failure) =
      open_all world m snapshot.apps (record { listeners = []; next_listener = m.next_listener }) in
    permit world now snapshot plans o m failure

unfoldable pub apply : World → Time → Snapshot → Manager → Manager × Option ApplyError
apply world now snapshot m =
    if not (text_eq snapshot.cgroup m.cgroup)
    then (m, some cgroup_changed)
    else apply_plans world now snapshot (read_plans world snapshot.apps) m

-- `restart`: stops the active workers, and clears the delay if there were any.
unfoldable pub stop_active : World → Time → ℕ → Manager → Manager
stop_active world now p m = if unset (m.table.process p).stopping then stop world p now m else m

abbrev pub clear_failures : Service → Service
clear_failures r = record r { failures = 0; retry_at = 0 }

unfoldable pub restart : World → ℕ → Time → Manager → Manager
restart world s now m =
    let active = any (λ p. unset (m.table.process p).stopping) (m.service s).workers in
    let stopped = each (m.service s).workers (stop_active world now) m in
    if active then with_service s clear_failures stopped else stopped
