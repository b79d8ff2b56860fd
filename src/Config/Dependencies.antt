-- ===== src/Config/Dependencies.antt =====
-- `validateDependencies`: a depth-first search for unknown, scheduled and cyclic dependencies.
pub mod Founded
pub mod Terminates
pub mod Acyclic
pub mod Entries
pub mod Accepts
use ooth.Prelude.{
  ℕ, zero, suc, Bool, false, not, Option, none, some, List, [], ◌∷◌, if◌then◌else◌, is_empty,
  length, Result, ok, err, ◌>>=◌,
}
use ooth.Prelude.Texts.{Text}
use ooth.Prelude.Maps.{lookup, insert}
use ooth.Config.App.{App, dependencies}

abbrev pub Apps : Type 0
Apps = List (Text × App)

-- `state[name]`: 1 and 2; an absent name is 0.
pub data Mark : Type 0 where
  visiting visited : Mark

abbrev pub Marks : Type 0
Marks = List (Text × Mark)

-- `out_of_fuel` stands for no error of the code: the search is given fuel for all its nested calls.
pub data DependencyError : Type 0 where
  unknown_dependency dependency_cycle : Text → DependencyError
  scheduled_dependency : Text → Text → DependencyError
  out_of_fuel : DependencyError

-- `apps[dependency].Schedule != ""`; an absent app has no schedule.
unfoldable pub is_scheduled : Apps → Text → Bool
is_scheduled apps name = elim (lookup name apps) [
  | none ↦ false
  | some app ↦ not (is_empty app.schedule)
]

-- The loop over the dependencies of an app, where `go` is `visit`.
unfoldable pub visit_all :
    (Text → Marks → Result DependencyError Marks)
    → Apps
    → Text
    → List (Text × Text)
    → Marks
    → Result DependencyError Marks
visit_all go apps name [] marks = ok marks
visit_all go apps name ((dependency, condition) ∷ rest) marks =
    if is_scheduled apps dependency
    then err (scheduled_dependency name dependency)
    else (go dependency marks >>= visit_all go apps name rest)

-- A name that is known, with its mark.
unfoldable pub visit_app :
    (Text → Marks → Result DependencyError Marks)
    → Apps
    → Text
    → App
    → Option Mark
    → Marks
    → Result DependencyError Marks
visit_app go apps name app (some visiting) marks = err (dependency_cycle name)
visit_app go apps name app (some visited) marks = ok marks
visit_app go apps name app none marks = do
  marks' ← visit_all go apps name (dependencies app) (insert name visiting marks)
  ok (insert name visited marks')

unfoldable pub visit_known :
    (Text → Marks → Result DependencyError Marks)
    → Apps
    → Text
    → Option App
    → Marks
    → Result DependencyError Marks
visit_known go apps name none marks = err (unknown_dependency name)
visit_known go apps name (some app) marks = visit_app go apps name app (lookup name marks) marks

unfoldable pub visit : ℕ → Apps → Text → Marks → Result DependencyError Marks
visit zero apps name marks = err out_of_fuel
visit (suc fuel) apps name marks = visit_known (visit fuel apps) apps name (lookup name apps) marks

-- The loop over all names. A nested call has marked one more app, so their number is enough fuel.
unfoldable pub visit_names : Apps → List (Text × App) → Marks → Result DependencyError Marks
visit_names apps [] marks = ok marks
visit_names apps ((name, app) ∷ rest) marks =
    visit (suc (length apps)) apps name marks >>= visit_names apps rest

unfoldable pub validate_dependencies : Apps → Result DependencyError Marks
validate_dependencies apps = visit_names apps apps []
