-- ===== src/Manager/Apply/Stage.antt =====
-- The first half of `apply`: everything that can fail is done before a service is touched.
use ooth.Prelude.{
  ℕ, ◌+◌, ◌-◌, ◌^◌, Bool, true, false, not, ◌||◌, ◌&&◌, Option, none, some, List, [], ◌∷◌,
  if◌then◌else◌, is_empty, ◌==◌, Result, ok, err, ◌>>=◌, any,
}
use ooth.Prelude.Texts.{Text, codes, text_eq}
use ooth.Prelude.Maps.{lookup}
use ooth.Schedule.Plan.{Plan, ScheduleError, parse_schedule}
use ooth.Config.App.{App, Socket, Socket-discrete, App-discrete}
use ooth.Resources.{ResourceLimits}
use ooth.Manager.State.{Service, Manager}
use ooth.Manager.Lifecycle.{World}
use mathlib.Core.Bool.{decide}

-- `Snapshot`; its roots serve the file watcher only.
pub record Snapshot : Type 0 where
  pub apps : List (Text × App)
  pub cgroup : Text
  pub resources : ResourceLimits

pub data ApplyError : Type 0 where
  cgroup_changed listener_ids_exhausted : ApplyError
  bad_schedule : Text → ScheduleError → ApplyError
  not_opened not_permitted : Text → ApplyError

abbrev pub same_socket : Socket → Socket → Bool
same_socket a b = decide (Socket-discrete a b)

abbrev pub same_app : App → App → Bool
same_app a b = decide (App-discrete a b)

abbrev pub same_mode : Option ℕ → Option ℕ → Bool
same_mode none none = true
same_mode (some a) (some b) = a == b
same_mode _ _ = false

unfoldable pub service_of : Text → Manager → Option Service
service_of name m = elim (lookup name m.services) [ none ↦ none | some s ↦ some (m.service s) ]

abbrev planned : Text → Result ScheduleError Plan → Result ApplyError Plan
planned name (ok plan) = ok plan
planned name (err e) = err (bad_schedule name e)

unfoldable pub read_plans : World → List (Text × App) → Result ApplyError (List (Text × Plan))
read_plans world [] = ok []
read_plans world ((name, app) ∷ rest) = do
  plan ← planned name (parse_schedule world.parse_duration app.schedule)
  plans ← read_plans world rest
  ok ((name, plan) ∷ plans)

-- Whether the app keeps the listener of the service of its name.
unfoldable pub keeps_listener : Manager → Text → App → Bool
keeps_listener m name app = elim (service_of name m) [
  | none ↦ false
  | some r ↦ same_socket r.config.listen app.listen
]

-- The listeners opened so far, newest first, and the last identifier.
pub record Opened : Type 0 where
  pub listeners : List (Text × ℕ)
  pub next_listener : ℕ

-- One round of the loop that opens listeners: the state it leaves, with an error or without.
unfoldable pub open_one : World → Manager → Text × App → Opened → Opened × Option ApplyError
open_one world m (name, app) o =
    if is_empty app.listen.network || keeps_listener m name app
    then (o, none)
    else if not (world.listener_opens name)
    then (o, some (not_opened name))
    else if o.next_listener == 2 ^ 31 - 1
    then (o, some listener_ids_exhausted)
    else if not (world.listener_arms name)
    then (record o { next_listener = o.next_listener + 1 }, some (not_opened name))
    else (
      record {
        listeners = (name, o.next_listener + 1) ∷ o.listeners;
        next_listener = o.next_listener + 1;
      },
      none,
    )

unfoldable pub open_all : World → Manager → List (Text × App) → Opened → Opened × Option ApplyError
open_all world m [] o = (o, none)
open_all world m (entry ∷ rest) o =
    let (o', failure) = open_one world m entry o in
    elim failure [ some e ↦ (o', some e) | none ↦ open_all world m rest o' ]

-- Whether the permissions of the app's socket are to be set again.
unfoldable pub keeps_permissions : Manager → Text → App → Bool
keeps_permissions m name app = elim (service_of name m) [
  | none ↦ false
  | some r ↦
      same_socket r.config.listen app.listen
      && text_eq r.config.identity.user app.identity.user
      && text_eq r.config.identity.group app.identity.group
      && same_mode r.config.socket_mode app.socket_mode
]

-- The sockets whose permissions were set, with an error or without.
unfoldable pub permit_all :
    World → Manager → List (Text × App) → List Text → List Text × Option ApplyError
permit_all world m [] done = (done, none)
permit_all world m ((name, app) ∷ rest) done =
    let kept = not (text_eq app.listen.network (codes "unix")) || keeps_permissions m name app in
    let allowed = world.socket_permitted name in
    elim (kept || allowed) [
      | false ↦ (done, some (not_permitted name))
      | true ↦ permit_all world m rest (if kept then done else name ∷ done)
    ]

-- What a failed `apply` leaves: closed listeners, finished permissions, used identifiers.
unfoldable pub roll_back : World → Opened → List Text → Manager → Manager
roll_back world o done m = record m {
  next_listener = o.next_listener;
  fatal = m.fatal || any world.permission_fails done;
}
