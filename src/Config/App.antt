-- ===== src/Config/App.antt =====
-- The types of an application's configuration, as the YAML files spell them. Maps are association
-- lists in the order of their keys, so that equal maps are equal lists; a percentage counts
-- millionths of a percent; `Values`, the raw document that only templates and comparisons read, is
-- the text of its keys and values, maps again in the order of their keys.
use ooth.Prelude.{ℕ, Bool, true, Option, none, some, List, [], ◌∷◌}
use native.Mathlib.Decide.{ℕ_discrete}
use ooth.Prelude.Signed.{ℤ}
use ooth.Prelude.Texts.{Text, codes}
use ooth.Prelude.Maps.{insert}
use ooth.Schedule.Times.{Duration}

abbrev pub Percent : Type 0
Percent = ℕ

abbrev pub one_percent : ℕ
one_percent = 1_000_000

pub record Socket : Type 0 where
  pub network : Text
  pub address : Text

pub record Identity : Type 0 where
  pub user : Text
  pub group : Text
  pub password : Option Text

pub record HttpRequest : Type 0 where
  pub url : Text
  pub method : Text
  pub headers : List (Text × Text)
  pub body : Text
  pub unix_socket : Text

pub record SocketCheck : Type 0 where
  pub address : Text
  pub send : Text

pub record Expectation : Type 0 where
  pub exit_codes : List ℤ
  pub status : List ℤ
  pub contains : Text
  pub regexp : Text

pub record Action : Type 0 where
  pub command : List Text
  pub env : List (Text × Text)
  pub directory : Text
  pub http : Option HttpRequest
  pub tcp : Option SocketCheck
  pub udp : Option SocketCheck
  pub expect : Expectation
  pub timeout : Duration
  pub retries : ℤ
  pub backoff : Duration

pub record Trigger : Type 0 where
  pub action : Text
  pub scope : Text
  pub wait : Option Bool
  pub interval : Duration
  pub failure_threshold : ℤ
  pub on_failure : Text

-- `binding.Wait == nil || *binding.Wait`
abbrev pub awaited : Trigger → Bool
awaited t = elim t.wait [ none ↦ true | some wait ↦ wait ]

pub record RestartRule : Type 0 where
  pub glob : Text
  pub events : List Text

pub record App : Type 0 where
  pub identity : Identity
  pub name : Text
  pub requires : List Text
  pub conditions : List (Text × Text)
  pub actions : List (Text × Action)
  pub triggers : List (Text × List Trigger)
  pub schedule : Text
  pub overlap : Bool
  pub max_exec_time : Duration
  pub startup : Bool
  pub ready : Text
  pub command : List Text
  pub directory : Text
  pub env : List (Text × Text)
  pub vars : List (Text × Text)
  pub restart_on : List RestartRule
  pub listen : Socket
  pub socket_handoff : Text
  pub socket_mode : Option ℕ
  pub min_workers : ℤ
  pub max_workers : ℤ
  pub concurrency : ℤ
  pub idle_timeout : Duration
  pub start_timeout : Duration
  pub stop_timeout : Duration
  pub request_timeout : Duration
  pub scale_at : Percent
  pub scale_window : Duration
  pub scale_delay : Duration
  pub values : Text
  pub source : Text

-- `dependencies`: every required name is "ready", then the map's own entries are written over it.
unfoldable pub required_entries : List Text → List (Text × Text)
required_entries [] = []
required_entries (name ∷ names) = insert name (codes "ready") (required_entries names)

unfoldable pub write_entries : List (Text × Text) → List (Text × Text) → List (Text × Text)
write_entries [] m = m
write_entries ((name, condition) ∷ rest) m = write_entries rest (insert name condition m)

unfoldable pub dependencies : App → List (Text × Text)
unfolding required_entries write_entries
dependencies app = write_entries app.conditions (required_entries app.requires)

-- `reflect.DeepEqual` and `==` on configurations.
pub App-discrete : Discrete App
App-discrete = hlevel ℕ_discrete

pub Socket-discrete : Discrete Socket
Socket-discrete = hlevel ℕ_discrete
