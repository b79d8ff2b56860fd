-- ===== src/Config/Dependencies/Acyclic.antt =====
-- Chains of dependencies, and that a founded app is on none that comes back to it.
use ooth.Prelude.{◌≡◌, refl, sym, ◌∙◌, ◌⊎◌, inl, inr, some, some_inj, In}
use mathlib.Core.Path.{subst}
use ooth.Prelude.Texts.{Text}
use ooth.Prelude.Maps.{lookup}
use ooth.Config.App.{App, dependencies}
use ooth.Config.Dependencies.{Apps}
use ooth.Config.Dependencies.Founded.{Founded, founded}

-- One app depends on another, directly or through a chain of apps.
pub data DependsOn (apps : Apps) (a : Text) : Text → Type 0 where
  direct :
      {b : Text} (app : App) (condition : Text)
      → lookup a apps ≡ some app
      → In (b, condition) (dependencies app)
      → DependsOn apps a b
  further :
      {b c : Text} (app : App) (condition : Text)
      → DependsOn apps a b
      → lookup b apps ≡ some app
      → In (c, condition) (dependencies app)
      → DependsOn apps a c

prepend :
    {apps : Apps} {a b c : Text} (app : App) (condition : Text)
    → lookup a apps ≡ some app
    → In (b, condition) (dependencies app)
    → DependsOn apps b c
    → DependsOn apps a c
prepend app condition known i (direct app' condition' known' j) =
    further app' condition' (direct app condition known i) known' j
prepend app condition known i (further app' condition' d known' j) =
    further app' condition' (prepend app condition known i d) known' j

-- The first step of a chain, and what is left of it.
first_step :
    {apps : Apps} {a c : Text}
    → DependsOn apps a c
    → (b : Text) × (app : App) × (condition : Text) × (lookup a apps ≡ some app)
      × In (b, condition) (dependencies app)
      × ((b ≡ c) ⊎ DependsOn apps b c)
first_step (direct {b} app condition known i) = (b, app, condition, known, i, inl refl)
first_step {apps} (further app' condition' d known' j) =
    let (b, app, condition, known, i, rest) = first_step d in
    (
      b,
      app,
      condition,
      known,
      i,
      inr (elim rest [
        | inl e ↦ direct app' condition' (subst (λ n. lookup n apps ≡ some app') (sym e) known') j
        | inr more ↦ further app' condition' more known' j
      ]),
    )

-- No founded app depends on itself.
pub Founded-acyclic : {apps : Apps} {name : Text} → Founded apps name → ¬ DependsOn apps name name
Founded-acyclic {apps} {name} (founded app known plain children) d =
    let (b, app', condition, known', i, rest) = first_step d in
    let same : app' ≡ app = some_inj (sym known' ∙ known) in
    let j = subst (λ (x : App). In (b, condition) (dependencies x)) same i in
    elim rest [
      | inl e ↦ Founded-acyclic (children b condition j) (subst (λ n. DependsOn apps n n) (sym e) d)
      | inr more ↦ Founded-acyclic (children b condition j) (further app condition more known j)
    ]
