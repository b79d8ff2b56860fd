-- ===== src/Config/Load.antt =====
-- `Load`: from the main file and the files that its globs name to a snapshot. Reading a file is a
-- parameter, as are the globs, the paths and the derivation of a password.
pub mod Addition
pub mod Gathering
pub mod Sound
use ooth.Prelude.{
  ℕ, ◌*◌, Bool, true, false, not, ◌&&◌, ◌||◌, ◌==◌, length, Option, none, some, List, [], ◌∷◌, ◌++◌,
  if◌then◌else◌, is_empty, is_some, any, ltb, Result, ok, err, ◌>>=◌, ◌>>◌, refuse_if, wrap,
}
use ooth.Prelude.Signed.{ℤ, pos, is_zero}
use ooth.Prelude.Texts.{Text, codes, text_eq, contains, contains_text}
use ooth.Prelude.Maps.{lookup, insert}
use ooth.Schedule.Times.{Duration, second}
use ooth.Resources.{ResourceLimits}
use ooth.Config.App.{App, Identity, Socket, RestartRule, one_percent}
use ooth.Config.Libraries.{Libraries}
use ooth.Config.Validation.{ValidationError, validate}
use ooth.Config.Templates.{TemplateError, resolve, has_slash, expand_launch}
use ooth.Config.Actions.{ActionsError, validate_actions}
use ooth.Config.Dependencies.{Apps, DependencyError, validate_dependencies}
use ooth.Config.Roots.{Files, RootError, expand_glob, watch_root, watched_roots}
use ooth.Config.Sources.{
  Main, Loaded, LoadError, Sources, new_app, chosen_window, default_ready, file_events,
  default_events, check_events, listener, check_listener, Loading, bad_percentages, unreadable,
  invalid_secret, no_watch, invalid_percentages, invalid_root, invalid_glob, both_windows,
  duplicate_name, invalid_app, invalid_launch, invalid_actions, rule_without_glob, unknown_event,
  same_listener, invalid_dependencies,
}

module _ (sources : Sources) where
  open sources use {libraries, files}

  unfoldable pub check_rules :
      Text → List RestartRule → Result LoadError (List RestartRule × List Text)
  check_rules file [] = ok ([], [])
  check_rules file (rule ∷ rules) = do
    refuse_if (is_empty rule.glob) (rule_without_glob file)
    let glob' = resolve libraries (libraries.dir file) rule.glob
    root ← wrap invalid_root (watch_root files glob')
    let events' = default_events rule.events
    check_events file events'
    rest ← check_rules file rules
    ok (record { glob = glob'; events = events' } ∷ rest.0, root ∷ rest.1)

  -- `app` with its window, its source and its name.
  unfoldable pub named : Text → App → App
  named file app = record app {
    scale_window = chosen_window app.scale_window app.scale_delay;
    source = file;
    name = if is_empty app.name then libraries.base (libraries.dir file) else app.name;
  }

  unfoldable pub with_password : Option Text → Identity → Identity
  with_password default_password identity = record identity {
    password =
        if text_eq libraries.goos (codes "windows")
          && not (is_empty identity.user)
          && not (is_some identity.password)
        then default_password
        else identity.password;
  }

  unfoldable pub resolved_program : Text → List Text → List Text
  resolved_program directory [] = []
  resolved_program directory (program ∷ arguments) =
      (if not (contains_text (codes "{{") program) && has_slash program
        then resolve libraries directory program
        else program)
      ∷ arguments

  unfoldable pub resolved_socket : Text → Socket → Socket
  resolved_socket file socket = record socket {
    address =
        if text_eq socket.network (codes "unix")
        then resolve libraries (libraries.dir file) socket.address
        else socket.address;
  }

  -- The paths of an app that is valid, made absolute, and its password.
  unfoldable pub located : Option Text → Text → App → App
  located default_password file app =
      let directory' = resolve libraries (libraries.dir file) app.directory in
      record app {
        identity = with_password default_password app.identity;
        directory = directory';
        command = resolved_program directory' app.command;
        listen = resolved_socket file app.listen;
      }

  -- The app is complete but for its restart rules.
  unfoldable pub take_app : Text → App → Loading → Result LoadError Loading
  take_app file app loading = do
    rules ← check_rules file app.restart_on
    let serves = not (is_empty app.listen.network)
    check_listener file serves (listener app.listen loading.sockets)
    ok (record {
      apps = insert app.name (record app { restart_on = rules.0 }) loading.apps;
      roots = loading.roots ++ rules.1;
      sockets = if serves then (app.listen, file) ∷ loading.sockets else loading.sockets;
    })

  unfoldable pub launch_app : Text → App → Loading → Result LoadError Loading
  launch_app file app loading = do
    launch ← wrap (invalid_launch file) (expand_launch libraries app app.listen.address)
    app' ← wrap (invalid_actions file) (validate_actions libraries app)
    take_app file app' loading

  unfoldable pub check_app : Option Text → Text → App → Loading → Result LoadError Loading
  check_app default_password file app loading = do
    wrap (invalid_app file) (validate libraries.goos libraries.parse_duration app)
    launch_app file (located default_password file app) loading

  -- An app with a new name.
  unfoldable pub add_app : Option Text → Text → App → Loading → Result LoadError Loading
  add_app default_password file app =
      check_app default_password file (record app { ready = default_ready app.ready })

  -- A file that two globs name is skipped; another app of the same name is an error.
  unfoldable pub add_named :
      Option Text → Text → App → Option App → Loading → Result LoadError Loading
  add_named default_password file app none loading = add_app default_password file app loading
  add_named default_password file app (some previous) loading =
      if text_eq previous.source file then ok loading else err (duplicate_name app.name)

  unfoldable pub load_read : Option Text → Text → Option App → Loading → Result LoadError Loading
  load_read default_password file none loading = err (unreadable file)
  load_read default_password file (some app) loading = do
    refuse_if (not (is_zero app.scale_window) && not (is_zero app.scale_delay)) (both_windows file)
    let app' = named file app
    add_named default_password file app' (lookup app'.name loading.apps) loading

  unfoldable pub load_files : Option Text → List Text → Loading → Result LoadError Loading
  load_files default_password [] loading = ok loading
  load_files default_password (file ∷ rest) loading = do
    loading' ← load_read default_password file (sources.read_app file new_app) loading
    load_files default_password rest loading'

  unfoldable pub load_found :
      Option Text → Text → Text → Option (List Text) → Loading → Result LoadError Loading
  load_found default_password pattern root none loading = err (invalid_glob pattern)
  load_found default_password pattern root (some matches) loading =
      load_files default_password matches (record loading { roots = loading.roots ++ root ∷ [] })

  unfoldable pub load_patterns : Option Text → Text → List Text → Loading → Result LoadError Loading
  load_patterns default_password directory [] loading = ok loading
  load_patterns default_password directory (watched ∷ rest) loading = do
    let pattern' = resolve libraries directory watched
    root ← wrap invalid_root (watch_root files pattern')
    loading' ←
        load_found default_password pattern' root
          (expand_glob files sources.match_glob pattern' root) loading
    load_patterns default_password directory rest loading'

  unfoldable pub machine_password : Text → Option Text
  machine_password encoded = elim (sources.hex_decode encoded) [
    | none ↦ none
    | some secret ↦
        if length secret == 32
        then some (
            codes "Sp!9"
            ++ (sources.hex_digits (sources.md5 (codes "sysperm-password-v1" ++ (0 ∷ secret)))
                ++ codes "aA0!"))
        else none
  ]

  unfoldable pub default_password : Option Text → Result LoadError (Option Text)
  default_password none = ok none
  default_password (some secret) = elim (machine_password secret) [
    | none ↦ err invalid_secret
    | some password ↦ ok (some password)
  ]

  unfoldable pub finish_load : Text → Main → Loading → Result LoadError Loaded
  finish_load directory main loading = do
    marks ← wrap invalid_dependencies (validate_dependencies loading.apps)
    ok (record {
      apps = loading.apps;
      roots = watched_roots files loading.roots;
      cgroup = if is_empty main.cgroup then [] else resolve libraries directory main.cgroup;
      resources = main.resources;
    })

  unfoldable pub load_apps : Text → Main → Option Text → Result LoadError Loaded
  load_apps directory main password = do
    loading ←
        load_patterns password directory main.watch
          (record { apps = []; roots = directory ∷ []; sockets = [] })
    finish_load directory main loading

  -- `path` is absolute, and `main` is what was read from it.
  unfoldable pub load : Text → Option Main → Result LoadError Loaded
  load path none = err (unreadable path)
  load path (some main) = do
    password ← default_password main.windows_password_secret
    refuse_if (is_empty main.watch) no_watch
    refuse_if (bad_percentages main.resources) invalid_percentages
    load_apps (libraries.dir path) main password
