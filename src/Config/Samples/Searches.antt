-- ===== src/Config/Samples/Searches.antt =====
-- The searches of a configuration at two apps: `web` needs `db`.
use ooth.Prelude.{◌≡◌, ◌≢◌, ◌↔◌, refl, [], ◌∷◌, In, inl, inr, some, ◌⊎◌, ok, err}
use ooth.Prelude.Texts.{Text, codes}
use ooth.Prelude.Maps.{lookup, insert}
use ooth.Config.App.{App, dependencies, required_entries, write_entries}
use ooth.Config.Sources.{new_app}
use ooth.Config.Dependencies.{
  Apps, visited, Marks, out_of_fuel, dependency_cycle, is_scheduled, visit_all, visit_app,
  visit_known, visit, visit_names, validate_dependencies,
}
use ooth.Config.Dependencies.Founded.{Founded}
use ooth.Config.Dependencies.Terminates.{validate_dependencies-ends}
use ooth.Config.Dependencies.Entries.{HasOne, dependencies_iff}
use ooth.Config.Dependencies.Accepts.{validate_dependencies_iff}

abbrev db_app : App
db_app = record new_app { name = codes "db" }

abbrev web_app : App
web_app = record new_app { name = codes "web"; requires = codes "db" ∷ [] }

abbrev two_apps : Apps
two_apps = (codes "web", web_app) ∷ (codes "db", db_app) ∷ []

abbrev two_marks : Marks
two_marks = (codes "web", visited) ∷ (codes "db", visited) ∷ []

two_accepted : validate_dependencies two_apps ≡ ok two_marks
unfolding validate_dependencies visit_names visit visit_known visit_app visit_all is_scheduled
    lookup insert dependencies required_entries write_entries
two_accepted = refl

-- An app that requires itself.
one_cycle :
    validate_dependencies ((codes "db", record db_app { requires = codes "db" ∷ [] }) ∷ [])
    ≡ err (dependency_cycle (codes "db"))
unfolding validate_dependencies visit_names visit visit_known visit_app visit_all is_scheduled
    lookup insert dependencies required_entries write_entries
one_cycle = refl

validate_dependencies-ends_example : validate_dependencies two_apps ≢ err out_of_fuel
validate_dependencies-ends_example = validate_dependencies-ends two_apps

validate_dependencies_iff_example :
    ((marks : Marks) × (validate_dependencies two_apps ≡ ok marks))
    ↔ ((name : Text) (app : App) → In (name, app) two_apps → Founded two_apps name)
validate_dependencies_iff_example = validate_dependencies_iff two_apps

abbrev mixed_app : App
mixed_app = record new_app {
  name = codes "web";
  requires = codes "db" ∷ [];
  conditions = (codes "cache", codes "started") ∷ [];
}

one_condition :
    (one : Text)
    → In (codes "cache", one) mixed_app.conditions
    → HasOne mixed_app.conditions (codes "cache") one
one_condition one (inl e) other (inl e') = cc
one_condition one (inr i) other j = absurd i
one_condition one i other (inr j) = absurd j

dependencies_iff_example :
    (lookup (codes "cache") (dependencies mixed_app) ≡ some (codes "started")) ↔ (
      In (codes "cache", codes "started") mixed_app.conditions
      ⊎ (((other : Text) → ¬ In (codes "cache", other) mixed_app.conditions)
          × (In (codes "cache") mixed_app.requires × (codes "started" ≡ codes "ready"))))
dependencies_iff_example =
    dependencies_iff mixed_app (codes "cache") (codes "started") one_condition
