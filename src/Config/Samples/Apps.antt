-- ===== src/Config/Samples/Apps.antt =====
-- An app with a command, a health check and a file of its own, from its validation to its snapshot.
use ooth.Prelude.{
  ◌*◌, ◌≡◌, ◌↔◌, inl, refl, true, Option, none, some, List, [], ◌∷◌, All, if◌then◌else◌, ok,
}
use ooth.Prelude.Signed.{pos}
use ooth.Prelude.Texts.{Text, codes, split, split_parts, starts_with, contains_text}
use ooth.Prelude.Maps.{lookup, insert}
use ooth.Schedule.Times.{Duration, second}
use ooth.Schedule.Plan.{parse_schedule}
use ooth.Config.App.{
  App, Action, Trigger, one_percent, dependencies, required_entries, write_entries,
}
use ooth.Config.Triggers
use ooth.Config.Load
use ooth.Config.Sources
use ooth.Config.Roots
use ooth.Config.Validation
use ooth.Config.Dependencies
use ooth.Config.Actions
use ooth.Config.Templates
use ooth.Config.Libraries.{Libraries, Endpoint}
use ooth.Config.Roots.{Files, directory, watch_root, watched_roots}
use ooth.Config.Roots.Nearest.{Nearest}
use ooth.Config.Roots.Cover.{Covered, AreApart, watched_roots-Covered}
use ooth.Config.Validation.{validate}
use ooth.Config.Validation.Refusals.{Passes}
use ooth.Config.Validation.Meaning.{IsValid, validate-IsValid}
use ooth.Config.Templates.{endpoint, expand_value}
use ooth.Config.Triggers.{check_triggers}
use ooth.Config.Triggers.Meaning.{AreTriggers, check_triggers-fixed}
use ooth.Config.Actions.{validate_actions}
use ooth.Config.Actions.Completion.{AreCompleted}
use ooth.Config.Actions.Limits.{IsAction}
use ooth.Config.Actions.Meaning.{validate_actions-IsAction}
use ooth.Config.Sources.{Sources, Main, Loaded, new_app}
use ooth.Config.Load.{load}
use ooth.Config.Load.Sound.{IsSnapshot, load-IsSnapshot}

abbrev no_duration : Text → Option Duration
no_duration s = none

-- Paths as they are, with one directory above all of them.
abbrev libraries : Libraries
libraries = record {
  goos = codes "linux";
  render = λ app e s. some s;
  split_host_port = λ s. none;
  host_url = λ scheme host. host;
  path_url = λ scheme path. path;
  compiles = λ s. true;
  request_target = λ method url. some (codes "http", codes "host");
  parse_duration = no_duration;
  is_abs = λ s. true;
  clean = λ s. s;
  join = λ directory s. s;
  dir = λ s. [];
  base = λ s. codes "web";
  to_slash = λ s. s;
}

abbrev files : Files
files = record {
  stat = λ s. directory;
  glob = λ s. some (codes "/web.yaml" ∷ []);
  walk = λ s. [];
  is_pattern = λ s. true;
  dir = λ s. if starts_with (codes "/") s then codes "/" else codes ".";
  rel = λ parent s. some [];
}

abbrev probe : Action
probe = record {
  command = codes "probe" ∷ [];
  env = [];
  directory = [];
  http = none;
  tcp = none;
  udp = none;
  expect = record { exit_codes = []; status = []; contains = []; regexp = [] };
  timeout = pos 0;
  retries = pos 2;
  backoff = pos 0;
}

abbrev health_check : Trigger
health_check = record {
  action = codes "probe";
  scope = [];
  wait = none;
  interval = pos 0;
  failure_threshold = pos 0;
  on_failure = [];
}

abbrev complete_check : Trigger
complete_check = record {
  action = codes "probe";
  scope = codes "worker";
  wait = none;
  interval = pos second;
  failure_threshold = pos 3;
  on_failure = codes "restart";
}

abbrev web : App
web = record new_app {
  name = codes "web";
  command = codes "serve" ∷ [];
  ready = codes "started";
  scale_window = pos second;
  actions = (codes "probe", probe) ∷ [];
  triggers = (codes "health", health_check ∷ []) ∷ [];
}

validate-IsValid_example :
    Passes (validate (codes "linux") no_duration web) ↔ IsValid (codes "linux") no_duration web
validate-IsValid_example = validate-IsValid (codes "linux") no_duration web

abbrev given : List (Text × List Trigger)
given = (codes "health", health_check ∷ []) ∷ []

abbrev completed_triggers : List (Text × List Trigger)
completed_triggers = (codes "health", complete_check ∷ []) ∷ []

-- Unfolding this name unfolds all that loading an app computes with.
loading : Unit {0}
unfolding Triggers.check_triggers Triggers.check_bindings Triggers.check_binding
    Triggers.check_completed Triggers.completed Triggers.bad_period Triggers.default_scope
    Triggers.default_interval Triggers.default_threshold Triggers.default_response
    Triggers.cannot_restart Triggers.is_periodic Triggers.check_conditions Actions.validate_actions
    Actions.check_actions Actions.check_action Actions.check_defaulted Actions.check_expanded
    Actions.bad_limits Actions.lacks_command Actions.lacks_reply Actions.kinds Actions.with_defaults
    Actions.default_timeout Actions.default_backoff Actions.count_true Actions.bad_http
    Actions.bad_check Templates.endpoint Templates.expand_value Templates.expand_action
    Templates.expand_texts Templates.expand_map Templates.expand_check Templates.expand_http
    Templates.expand_env Templates.expand_command Templates.expand_launch Templates.resolved_command
    Templates.rendered Templates.resolve contains_text starts_with lookup insert
loading = tt

triggers_completed : check_triggers web.actions given ≡ ok completed_triggers
unfolding loading
triggers_completed = refl

check_triggers-fixed_example :
    (check_triggers web.actions completed_triggers ≡ ok completed_triggers)
    ↔ AreTriggers web.actions completed_triggers
check_triggers-fixed_example = check_triggers-fixed web.actions completed_triggers

abbrev defaulted_probe : Action
defaulted_probe = record probe { timeout = pos (3 * second); backoff = pos 100_000_000 }

abbrev validated : App
validated = record web {
  actions = (codes "probe", defaulted_probe) ∷ [];
  triggers = completed_triggers;
}

web-validated : validate_actions libraries web ≡ ok validated
unfolding loading
web-validated = refl

validate_actions-IsAction_example :
    (validated ≡ record web { actions = validated.actions; triggers = validated.triggers })
    × ((e : Option Endpoint) × (endpoint libraries web web.listen.address ≡ ok e)
        × AreCompleted web.actions validated.actions
        × All
            (λ p. IsAction libraries (expand_value (libraries.render web e)) p.1)
            validated.actions)
    × AreTriggers validated.actions validated.triggers
validate_actions-IsAction_example = validate_actions-IsAction libraries web validated web-validated

abbrev sources : Sources
sources = record {
  libraries = libraries;
  files = files;
  read_app = λ file app. some web;
  hex_decode = λ s. none;
  hex_digits = λ s. s;
  md5 = λ s. s;
  match_glob = λ pattern path. true;
}

abbrev main : Main
main = record {
  watch = codes "/*.yaml" ∷ [];
  cgroup = [];
  resources = record { max_cpu = 90 * one_percent; min_available_memory = 10 * one_percent };
  windows_password_secret = none;
}

abbrev snapshot : Loaded
snapshot = record {
  apps = (codes "web", record validated { source = codes "/web.yaml" }) ∷ [];
  roots = [] ∷ [];
  cgroup = [];
  resources = main.resources;
}

one_loaded : load sources (codes "/ooth.yaml") (some main) ≡ ok snapshot
unfolding loading Load.load Load.load_apps Load.finish_load Load.load_patterns Load.load_found
    Load.load_files Load.load_read Load.add_named Load.add_app Load.check_app Load.launch_app
    Load.take_app Load.located Load.resolved_socket Load.resolved_program Load.with_password
    Load.named Load.check_rules Sources.check_listener Sources.default_ready Sources.chosen_window
    Sources.listener Load.default_password Validation.validate Validation.check_schedule
    Validation.schedule_checked Validation.check_identity Validation.bad_mode
    Validation.check_command Validation.has_no_program Validation.check_handoff
    Validation.check_ready Validation.check_limits Validation.check_env parse_schedule
    Roots.watch_root Roots.climb Roots.before_wild Roots.expand_glob Roots.watched_roots
    Roots.keep_roots Roots.covers Roots.sort Roots.insert_sorted Roots.before Roots.compact
    Roots.compact_after split split_parts Dependencies.validate_dependencies
    Dependencies.visit_names Dependencies.visit Dependencies.visit_known Dependencies.visit_app
    Dependencies.visit_all dependencies required_entries write_entries
one_loaded = refl

load-IsSnapshot_example : IsSnapshot sources snapshot.apps
load-IsSnapshot_example =
    load-IsSnapshot sources (codes "/ooth.yaml") (some main) snapshot one_loaded

watched_roots-Covered_example :
    Covered files (watched_roots files (codes "/b" ∷ codes "/a" ∷ [])) (codes "/b")
    × AreApart files [] (watched_roots files (codes "/b" ∷ codes "/a" ∷ []))
watched_roots-Covered_example =
    watched_roots-Covered files (codes "/b" ∷ codes "/a" ∷ []) (codes "/b") (inl refl)
