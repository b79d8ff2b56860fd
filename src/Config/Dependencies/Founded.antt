-- ===== src/Config/Dependencies/Founded.antt =====
-- Apps whose dependencies are all known, are no scheduled apps and end somewhere, and that an
-- accepted configuration has no others.
use ooth.Prelude.{
  ℕ, zero, suc, ◌≡◌, refl, sym, ◌∙◌, ap, inl, inr, false, Option, none, some, List, [], ◌∷◌, In,
  Result, ok, >>=-eq-ok, ok_inj, err-ne-ok, Bool-cases, Option-cases, some_inj, length,
}
use mathlib.Core.Path.{subst}
use mathlib.Core.Option.{none-ne-some}
use ooth.Prelude.Texts.{Text, text_eq, text_eq_iff}
use ooth.Prelude.Maps.{lookup, insert, lookup-insert}
use ooth.Config.App.{App, dependencies}
use ooth.Config.Dependencies.{
  Apps, Mark, visiting, visited, Marks, DependencyError, is_scheduled, visit_all, visit_app,
  visit_known, visit, visit_names, validate_dependencies,
}

-- Equal entries of one lookup.
-- The app exists, and each of its dependencies is founded and is no scheduled app. There is no
-- infinite, and so no cyclic, chain of such apps.
pub data Founded (apps : Apps) : Text → Type 0 where
  founded :
      {name : Text} (app : App)
      → lookup name apps ≡ some app
      → ((dependency condition : Text)
          → In (dependency, condition) (dependencies app)
          → is_scheduled apps dependency ≡ false)
      → ((dependency condition : Text)
          → In (dependency, condition) (dependencies app)
          → Founded apps dependency)
      → Founded apps name

-- Every name that is marked as visited is founded.
abbrev AllFounded : Apps → Marks → Type 0
AllFounded apps marks = (name : Text) → lookup name marks ≡ some visited → Founded apps name

insert-AllFounded :
    (apps : Apps) (name : Text) (mark : Mark) (marks : Marks)
    → AllFounded apps marks
    → (mark ≡ visited → Founded apps name)
    → AllFounded apps (insert name mark marks)
insert-AllFounded apps name mark marks all own other h = elim (Bool-cases (text_eq name other)) [
  | inl same ↦
      let here : name ≡ other = (text_eq_iff name other).0 same in
      subst (Founded apps) here
        (own (some_inj (rw same at (sym (lookup-insert name other mark marks) ∙ h))))
  | inr differs ↦ all other (rw differs at (sym (lookup-insert name other mark marks) ∙ h))
]

-- What a successful visit of a name leaves.
record Visited (apps : Apps) (name : Text) (marks : Marks) : Type 0 where
  here : Founded apps name
  all : AllFounded apps marks

abbrev IsVisit : Apps → (Text → Marks → Result DependencyError Marks) → Type 0
IsVisit apps go =
    (name : Text) (marks result : Marks)
    → AllFounded apps marks
    → go name marks ≡ ok result
    → Visited apps name result

abbrev pub DependenciesFounded : Apps → List (Text × Text) → Type 0
DependenciesFounded apps l =
    (dependency condition : Text)
    → In (dependency, condition) l
    → (is_scheduled apps dependency ≡ false) × Founded apps dependency

visit_all-Founded :
    (apps : Apps) (go : Text → Marks → Result DependencyError Marks) (name : Text)
    (l : List (Text × Text)) (marks result : Marks)
    → IsVisit apps go
    → AllFounded apps marks
    → visit_all go apps name l marks ≡ ok result
    → DependenciesFounded apps l × AllFounded apps result
unfolding visit_all
visit_all-Founded apps go name [] marks result v all h =
    (λ d c i. absurd i, subst (AllFounded apps) (ok_inj h) all)
visit_all-Founded apps go name ((dependency, condition) ∷ rest) marks result v all h =
    elim (Bool-cases (is_scheduled apps dependency)) [
      | inl scheduled ↦ absurd (err-ne-ok (rw scheduled at h))
      | inr plain ↦
          let (middle, first, later) =
            >>=-eq-ok (go dependency marks) (visit_all go apps name rest) (rw plain at h) in
          let here = v dependency marks middle all first in
          let others = visit_all-Founded apps go name rest middle result v here.all later in
          (
            λ d c i. elim i [
              | inl same ↦
                  let e : dependency ≡ d = ap (λ p. p.0) (sym same) in
                  subst (λ n. (is_scheduled apps n ≡ false) × Founded apps n) e (plain, here.here)
              | inr j ↦ others.0 d c j
            ],
            others.1,
          )
    ]

visit_app-Visited :
    (apps : Apps) (go : Text → Marks → Result DependencyError Marks) (name : Text) (app : App)
    (mark : Option Mark) (marks result : Marks)
    → IsVisit apps go
    → lookup name apps ≡ some app
    → lookup name marks ≡ mark
    → AllFounded apps marks
    → visit_app go apps name app mark marks ≡ ok result
    → Visited apps name result
unfolding visit_app
visit_app-Visited apps go name app (some visiting) marks result v known mark all h =
    absurd (err-ne-ok h)
visit_app-Visited apps go name app (some visited) marks result v known mark all h =
    subst (Visited apps name) (ok_inj h) (record { here = all name mark; all = all })
visit_app-Visited apps go name app none marks result v known mark all h =
    let (below, inner, last) =
      >>=-eq-ok (visit_all go apps name (dependencies app) (insert name visiting marks)) _ h in
    let entered = insert-AllFounded apps name visiting marks all (λ e. cc) in
    let children = visit_all-Founded apps go name (dependencies app) _ below v entered inner in
    let own = founded app known (λ d c i. (children.0 d c i).0) (λ d c i. (children.0 d c i).1) in
    subst (Visited apps name) (ok_inj last)
      (record { here = own; all = insert-AllFounded apps name visited below children.1 (λ e. own) })

visit-IsVisit : (fuel : ℕ) (apps : Apps) → IsVisit apps (visit fuel apps)
unfolding visit visit_known
visit-IsVisit zero apps name marks result all h = absurd (err-ne-ok h)
visit-IsVisit (suc fuel) apps name marks result all h = elim (Option-cases (lookup name apps)) [
  | inl unknown ↦ absurd (err-ne-ok (rw unknown at h))
  | inr (app, known) ↦
      visit_app-Visited apps (visit fuel apps) name app (lookup name marks) marks result
        (visit-IsVisit fuel apps) known refl all (rw known at h)
]

visit_names-Founded :
    (apps : Apps) (l : List (Text × App)) (marks result : Marks)
    → AllFounded apps marks
    → visit_names apps l marks ≡ ok result
    → (name : Text) (app : App) → In (name, app) l
    → Founded apps name
unfolding visit_names
visit_names-Founded apps [] marks result all h name app i = absurd i
visit_names-Founded apps ((first, config) ∷ rest) marks result all h name app i =
    let (middle, one, later) =
      >>=-eq-ok (visit (suc (length apps)) apps first marks) (visit_names apps rest) h in
    let here = visit-IsVisit (suc (length apps)) apps first marks middle all one in
    elim i [
      | inl same ↦
          let e : first ≡ name = ap (λ p. p.0) (sym same) in subst (Founded apps) e here.here
      | inr j ↦ visit_names-Founded apps rest middle result here.all later name app j
    ]

-- In a configuration that is accepted, every app is founded: its dependencies exist, none of them is
-- scheduled, and no chain of them goes on for ever.
pub validate_dependencies-Founded :
    (apps : Apps) (marks : Marks)
    → validate_dependencies apps ≡ ok marks
    → (name : Text) (app : App) → In (name, app) apps
    → Founded apps name
unfolding validate_dependencies lookup
validate_dependencies-Founded apps marks h =
    visit_names-Founded apps apps [] marks (λ name e. absurd (none-ne-some _ e)) h

-- The dependencies of a founded app.
pub Founded-children :
    {apps : Apps} {name : Text} {app : App}
    → Founded apps name
    → lookup name apps ≡ some app
    → DependenciesFounded apps (dependencies app)
Founded-children {apps} {name} {app} (founded app' known' plain children) known =
    let same : app' ≡ app = some_inj (sym known' ∙ known) in
    subst (λ (x : App). DependenciesFounded apps (dependencies x)) same
      (λ d c i. (plain d c i, children d c i))

pub Founded-known : {apps : Apps} {name : Text} → Founded apps name → ¬ (lookup name apps ≡ none)
Founded-known (founded app known plain children) unknown = none-ne-some app (sym unknown ∙ known)
