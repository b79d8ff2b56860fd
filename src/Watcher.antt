-- ===== src/Watcher.antt =====
-- src/main.go: `RestartRule.matches` and `Watch`. The watcher of the file system, the timers and the
-- loading of a configuration are parameters: what they give are the inputs.
pub mod Requests
pub mod Samples
use ooth.Prelude.{
  ℕ, zero, suc, Bool, true, false, not, ◌&&◌, ◌||◌, ◌==◌, Option, none, some, is_some, List, [],
  ◌∷◌, ◌++◌, if◌then◌else◌, is_empty, any, length, ltb,
}
use native.Mathlib.Decide.{ℕ_discrete}
use ooth.Prelude.Texts.{Text, codes, text_eq}
use ooth.Prelude.Maps.{insert}
use ooth.Resources.{ResourceLimits}
use ooth.Config.App.{App, RestartRule, App-discrete}
use ooth.Config.Sources.{Loaded}

-- The types of a file event; `unknown` is the zero value.
pub data EventType : Type 0 where
  unknown created modified removed renamed changed_mode overflow : EventType

abbrev type_number : EventType → ℕ
type_number unknown = 0
type_number created = 1
type_number modified = 2
type_number removed = 3
type_number renamed = 4
type_number changed_mode = 5
type_number overflow = 6

abbrev pub contains_type : List EventType → EventType → Bool
contains_type types type = any (λ t. type_number t == type_number type) types

-- `fileEvents`
unfoldable pub file_event : Text → EventType
file_event name =
    if text_eq name (codes "create")
    then created
    else if text_eq name (codes "write")
    then modified
    else if text_eq name (codes "remove")
    then removed
    else if text_eq name (codes "rename")
    then renamed
    else if text_eq name (codes "chmod")
    then changed_mode
    else unknown

pub record WatchEvent : Type 0 where
  pub path : Text
  pub types : List EventType

-- filepath.Clean and filepath.Dir, and `matchGlob`
pub record Paths : Type 0 where
  pub clean : Text → Text
  pub dir : Text → Text
  pub match_glob : Text → Text → Bool

module _ (paths : Paths) where
  -- The loop over the directories above a glob, the root left out, on fuel.
  unfoldable pub some_parent : ℕ → Text → Text → Bool
  some_parent zero parent path = false
  some_parent (suc fuel) parent path =
      let above = paths.dir parent in
      let rest = some_parent fuel above path in
      if text_eq above parent then false else paths.match_glob parent path || rest

  -- A directory that is created, removed or renamed changes all files below it.
  unfoldable pub changes_directory : List EventType → Bool
  changes_directory types =
      contains_type types created || contains_type types removed || contains_type types renamed

  unfoldable pub rule_matches : RestartRule → WatchEvent → Bool
  rule_matches rule event =
      let path = paths.clean event.path in
      (paths.match_glob rule.glob path
        || (changes_directory event.types
            && some_parent (suc (length rule.glob)) (paths.dir rule.glob) path))
      && any (λ name. contains_type event.types (file_event name)) rule.events

  unfoldable pub affects : WatchEvent → App → Bool
  affects event app =
      not (is_empty app.restart_on)
      && (contains_type event.types overflow
          || any (λ rule. rule_matches rule event) app.restart_on)

  -- `record`
  unfoldable pub record_event :
      WatchEvent → List (Text × App) → List (Text × App) → List (Text × App)
  record_event event [] restarts = restarts
  record_event event ((name, app) ∷ rest) restarts =
      record_event event rest (if affects event app then insert name app restarts else restarts)

-- The variables of `Watch`: `initial` is the configuration that was sent last.
pub record Watching : Type 0 where
  pub initial : Loaded
  pub restarts : List (Text × App)
  pub lost : ℕ

-- `watchUpdate`
pub record Update : Type 0 where
  pub snapshot : Option Loaded
  pub restarts : List (Text × App)

-- An event, or a timer, with the number of lost events, the result of `Load`, and whether a watcher
-- of new roots starts.
pub data WatchInput : Type 0 where
  happens : WatchEvent → WatchInput
  settles : ℕ → Option Loaded → Bool → WatchInput

abbrev pub same_texts : List Text → List Text → Bool
same_texts [] [] = true
same_texts [] (t ∷ m) = false
same_texts (s ∷ l) [] = false
same_texts (s ∷ l) (t ∷ m) = text_eq s t && same_texts l m

-- `reflect.DeepEqual` on snapshots, whose apps stand in the order of their names.
pub Loaded-discrete : Discrete Loaded
Loaded-discrete = hlevel (ℕ_discrete, App-discrete)

-- The snapshot to send, and whether the watcher was replaced.
unfoldable pub chosen : Loaded → Option Loaded → Bool → Option Loaded × Bool
chosen initial none starts = (none, false)
chosen initial (some next) starts =
    if not (same_texts initial.roots next.roots)
    then (if starts then (some next, true) else (none, false))
    else elim (Loaded-discrete initial next) [ yes e ↦ (none, false) | no e ↦ (some next, false) ]

unfoldable pub latest : Loaded → Option Loaded → Loaded
latest initial none = initial
latest initial (some next) = next

-- The end of a round: the update is sent unless there is nothing to send.
unfoldable pub send_update : Watching → Option Loaded → Watching × List Update
unfolding latest
send_update st none =
    if is_empty st.restarts
    then (st, [])
    else (record st { restarts = [] }, record { snapshot = none; restarts = st.restarts } ∷ [])
send_update st (some next) = (
  record st { initial = next; restarts = [] },
  record { snapshot = some next; restarts = st.restarts } ∷ [],
)

abbrev pub overflow_event : WatchEvent
overflow_event = record { path = []; types = overflow ∷ [] }

module _ (paths : Paths) where
  -- Events that were lost restart every app that watches files.
  unfoldable pub count_lost : ℕ → Watching → Watching
  count_lost count st =
      if ltb st.lost count
      then record st {
        restarts = record_event paths overflow_event st.initial.apps st.restarts;
        lost = count;
      }
      else st

  unfoldable pub end_round : ℕ → Option Loaded → Bool → Watching → Watching × List Update
  end_round count loaded starts st =
      let counted = count_lost count st in
      let choice = chosen counted.initial loaded starts in
      send_update (if choice.1 then record counted { lost = 0 } else counted) choice.0

  unfoldable pub take_input : Watching → WatchInput → Watching × List Update
  take_input st (happens event) =
      (record st { restarts = record_event paths event st.initial.apps st.restarts }, [])
  take_input st (settles count loaded starts) = end_round count loaded starts st

  unfoldable pub watch : Watching → List WatchInput → Watching × List Update
  watch st [] = (st, [])
  watch st (input ∷ rest) =
      let stepped = take_input st input in
      let later = watch stepped.0 rest in (later.0, stepped.1 ++ later.1)
