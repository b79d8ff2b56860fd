-- ===== src/Config/Sources.antt =====
-- What `Load` reads, takes from outside and answers with, the values that an app starts with, and the
-- checks of its rules' events and of its listener.
use ooth.Prelude.{
  ◌*◌, Bool, false, not, ◌&&◌, ◌||◌, Option, none, some, List, [], ◌∷◌, if◌then◌else◌, is_empty,
  ltb, Result, ok, ◌>>◌, refuse_if,
}
use ooth.Prelude.Signed.{pos, is_zero}
use ooth.Prelude.Texts.{Text, codes, text_eq, contains}
use ooth.Schedule.Times.{Duration, second}
use ooth.Resources.{ResourceLimits}
use ooth.Config.App.{App, Socket, one_percent}
use ooth.Config.Libraries.{Libraries}
use ooth.Config.Validation.{ValidationError}
use ooth.Config.Templates.{TemplateError}
use ooth.Config.Actions.{ActionsError}
use ooth.Config.Dependencies.{Apps, DependencyError}
use ooth.Config.Roots.{Files, RootError}

-- `Config`: the main file.
pub record Main : Type 0 where
  pub watch : List Text
  pub cgroup : Text
  pub resources : ResourceLimits
  pub windows_password_secret : Option Text

-- `Snapshot`
pub record Loaded : Type 0 where
  pub apps : Apps
  pub roots : List Text
  pub cgroup : Text
  pub resources : ResourceLimits

pub data LoadError : Type 0 where
  unreadable : Text → LoadError
  invalid_secret no_watch invalid_percentages : LoadError
  invalid_root : RootError → LoadError
  invalid_glob : Text → LoadError
  both_windows : Text → LoadError
  duplicate_name : Text → LoadError
  invalid_app : Text → ValidationError → LoadError
  invalid_launch : Text → TemplateError → LoadError
  invalid_actions : Text → ActionsError → LoadError
  rule_without_glob : Text → LoadError
  unknown_event : Text → Text → LoadError
  same_listener : Text → Text → LoadError
  invalid_dependencies : DependencyError → LoadError

-- What `Load` takes from outside.
pub record Sources : Type 0 where
  pub libraries : Libraries
  pub files : Files
  -- `read`, onto the values that an app starts with
  pub read_app : Text → App → Option App
  -- hex.DecodeString, the digits of `%x`, and crypto/md5
  pub hex_decode : Text → Option Text
  pub hex_digits : Text → Text
  pub md5 : Text → Text
  -- filepath.Match on the elements of a path, after cleaning
  pub match_glob : Text → Text → Bool

-- The values before a file is read.
abbrev pub new_app : App
new_app = record {
  identity = record { user = []; group = []; password = none };
  name = [];
  requires = [];
  conditions = [];
  actions = [];
  triggers = [];
  schedule = [];
  overlap = false;
  max_exec_time = pos 0;
  startup = false;
  ready = [];
  command = [];
  directory = [];
  env = [];
  vars = [];
  restart_on = [];
  listen = record { network = []; address = [] };
  socket_handoff = [];
  socket_mode = none;
  min_workers = pos 0;
  max_workers = pos 1;
  concurrency = pos 1;
  idle_timeout = pos (60 * second);
  start_timeout = pos (10 * second);
  stop_timeout = pos (10 * second);
  request_timeout = pos 0;
  scale_at = 80 * one_percent;
  scale_window = pos 0;
  scale_delay = pos 0;
  values = [];
  source = [];
}

-- The window of the scaling, whose legacy name is the delay.
unfoldable pub chosen_window : Duration → Duration → Duration
chosen_window window delay =
    if is_zero window then (if is_zero delay then pos second else delay) else window

unfoldable pub default_ready : Text → Text
default_ready ready = if is_empty ready then codes "started" else ready

abbrev pub file_events : List Text
file_events = codes "create" ∷ codes "write" ∷ codes "remove" ∷ codes "rename" ∷ codes "chmod" ∷ []

-- The events of a rule, `chmod` left out where none is given.
unfoldable pub default_events : List Text → List Text
default_events [] = codes "create" ∷ codes "write" ∷ codes "remove" ∷ codes "rename" ∷ []
default_events (event ∷ events) = event ∷ events

unfoldable pub check_events : Text → List Text → Result LoadError (Unit {0})
check_events file [] = ok tt
check_events file (event ∷ events) = do
  refuse_if (not (contains file_events event)) (unknown_event file event)
  check_events file events

-- `sockets[app.Listen]`
unfoldable pub listener : Socket → List (Socket × Text) → Option Text
listener socket [] = none
listener socket ((other, file) ∷ rest) =
    if text_eq other.network socket.network && text_eq other.address socket.address
    then some file
    else listener socket rest

unfoldable pub check_listener : Text → Bool → Option Text → Result LoadError (Unit {0})
check_listener file serves none = ok tt
check_listener file serves (some previous) = refuse_if serves (same_listener previous file)

-- What the loop over the files has gathered.
pub record Loading : Type 0 where
  pub apps : Apps
  pub roots : List Text
  pub sockets : List (Socket × Text)

abbrev pub bad_percentages : ResourceLimits → Bool
bad_percentages limits =
    ltb (100 * one_percent) limits.max_cpu || ltb (100 * one_percent) limits.min_available_memory
