-- ===== src/Config/Dependencies/Accepts.antt =====
-- A configuration of founded apps is accepted: the search meets no name twice on one chain.
use ooth.Prelude.{
  ℕ, zero, suc, ◌≤◌, ◌<◌, ◌≡◌, refl, sym, ◌∙◌, ◌↔◌, inl, inr, false, Option, none, some, List, [],
  ◌∷◌, In, Result, ok, err, ◌>>=◌, Bool-cases, Option-cases, arith, length,
}
use mathlib.Core.Path.{subst}
use mathlib.Core.Option.{none-ne-some}
use ooth.Prelude.Texts.{Text, text_eq, text_eq_iff}
use ooth.Prelude.Maps.{lookup, insert, lookup-insert}
use ooth.Config.App.{App, dependencies}
use ooth.Config.Dependencies.{
  Apps, Mark, visiting, visited, Marks, DependencyError, is_scheduled, visit_all, visit_app,
  visit_known, visit, visit_names, validate_dependencies,
}
use ooth.Config.Dependencies.Founded.{
  Founded, Founded-children, Founded-known, validate_dependencies-Founded,
}
use ooth.Config.Dependencies.Terminates.{
  unmarked, unmarked-insert, unmarked_marks, unmarked-le-length,
}
use ooth.Config.Dependencies.Acyclic.{DependsOn, direct, further, Founded-acyclic}

module _ (apps : Apps) where
  -- The names on the chain that leads to this one.
  abbrev Above : Marks → Text → Type 0
  Above marks name = (g : Text) → lookup g marks ≡ some visiting → DependsOn apps g name

  -- A visit that succeeds, marks no fewer apps, and leaves no name open that was not.
  abbrev Succeeds : Marks → Result DependencyError Marks → Type 0
  Succeeds marks (err e) = ⊥
  Succeeds marks (ok result) =
      (unmarked apps result ≤ unmarked apps marks)
      × ((g : Text) → lookup g result ≡ some visiting → lookup g marks ≡ some visiting)

  Succeeds-bind :
      (marks : Marks) (r : Result DependencyError Marks) (f : Marks → Result DependencyError Marks)
      → Succeeds marks r
      → ((middle : Marks) → Succeeds marks (ok middle) → Succeeds middle (f middle))
      → Succeeds marks (r >>= f)
  Succeeds-bind marks (err e) f h g = absurd h
  Succeeds-bind marks (ok middle) f h g = joined (f middle) (g middle h)
    where
      joined : (r : Result DependencyError Marks) → Succeeds middle r → Succeeds marks r
      joined (err e) k = k
      joined (ok result) k = (omega (arith, h.0, k.0), λ name e. h.1 name (k.1 name e))

  abbrev VisitSucceeds : ℕ → (Text → Marks → Result DependencyError Marks) → Type 0
  VisitSucceeds fuel go =
      (name : Text) (marks : Marks)
      → unmarked apps marks < fuel
      → Founded apps name
      → Above marks name
      → Succeeds marks (go name marks)

  visit_all-Succeeds :
      (fuel : ℕ) (go : Text → Marks → Result DependencyError Marks) (name : Text)
      (l : List (Text × Text)) (marks : Marks)
      → VisitSucceeds fuel go
      → unmarked apps marks < fuel
      → ((d c : Text) → In (d, c) l → is_scheduled apps d ≡ false)
      → ((d c : Text) → In (d, c) l → Founded apps d × Above marks d)
      → Succeeds marks (visit_all go apps name l marks)
  unfolding visit_all
  visit_all-Succeeds fuel go name [] marks v h plain below = (omega arith, λ g e. e)
  visit_all-Succeeds fuel go name ((d, c) ∷ rest) marks v h plain below =
      rw (plain d c (inl refl)) (
        Succeeds-bind marks (go d marks) (visit_all go apps name rest)
          (v d marks h (below d c (inl refl)).0 (below d c (inl refl)).1)
          (λ middle kept.
            visit_all-Succeeds fuel go name rest middle v (omega (arith, h, kept.0))
              (λ d' c' i. plain d' c' (inr i))
              (λ d' c' i.
                ((below d' c' (inr i)).0, λ g e. (below d' c' (inr i)).1 g (kept.1 g e)))))

  -- Entering a name puts it on the chain to each of its dependencies.
  entered-Above :
      (name d c : Text) (app : App) (marks : Marks)
      → lookup name apps ≡ some app
      → In (d, c) (dependencies app)
      → Above marks name
      → Above (insert name visiting marks) d
  entered-Above name d c app marks known i above g e = elim (Bool-cases (text_eq name g)) [
    | inl same ↦
        subst (λ n. DependsOn apps n d) ((text_eq_iff name g).0 same) (direct app c known i)
    | inr differs ↦
        let old = rw differs at (sym (lookup-insert name g visiting marks) ∙ e) in
        further app c (above g old) known i
  ]

  left :
      (name : Text) (marks middle : Marks)
      → Succeeds (insert name visiting marks) (ok middle)
      → (g : Text) → lookup g (insert name visited middle) ≡ some visiting
      → lookup g marks ≡ some visiting
  left name marks middle s g e = elim (Bool-cases (text_eq name g)) [
    | inl same ↦
        absurd (visited-ne-visiting (rw same at (sym (lookup-insert name g visited middle) ∙ e)))
    | inr differs ↦
        let inner = rw differs at (sym (lookup-insert name g visited middle) ∙ e) in
        rw differs at (sym (lookup-insert name g visiting marks) ∙ s.1 g inner)
  ]
    where
      visited-ne-visiting : ¬ (some visited ≡ some visiting)
      visited-ne-visiting e = cc

  visit_app-Succeeds :
      (fuel : ℕ) (go : Text → Marks → Result DependencyError Marks) (name : Text) (app : App)
      (mark : Option Mark) (marks : Marks)
      → VisitSucceeds fuel go
      → lookup name apps ≡ some app
      → lookup name marks ≡ mark
      → unmarked apps marks < suc fuel
      → Founded apps name
      → Above marks name
      → Succeeds marks (visit_app go apps name app mark marks)
  unfolding visit_app
  visit_app-Succeeds fuel go name app (some visiting) marks v known mark h f above =
      absurd (Founded-acyclic f (above name mark))
  visit_app-Succeeds fuel go name app (some visited) marks v known mark h f above =
      (omega arith, λ g e. e)
  visit_app-Succeeds fuel go name app none marks v known mark h f above =
      finished (visit_all go apps name (dependencies app) entered) (
        visit_all-Succeeds fuel go name (dependencies app) entered v
          (omega (arith, h, unmarked_marks apps name app visiting marks known mark))
          (λ d c i. (Founded-children f known d c i).0)
          (λ d c i.
            ((Founded-children f known d c i).1, entered-Above name d c app marks known i above)))
    where
      entered : Marks
      entered = insert name visiting marks

      finished :
          (r : Result DependencyError Marks)
          → Succeeds entered r
          → Succeeds marks (r >>= λ middle. ok (insert name visited middle))
      finished (err e) s = s
      finished (ok middle) s = (
        omega (
          arith,
          s.0,
          unmarked-insert apps name visited middle,
          unmarked-insert apps name visiting marks,
        ),
        left name marks middle s,
      )

  visit-Succeeds : (fuel : ℕ) → VisitSucceeds fuel (visit fuel apps)
  unfolding visit visit_known
  visit-Succeeds zero name marks h f above = absurd (omega (arith, h))
  visit-Succeeds (suc fuel) name marks h f above = elim (Option-cases (lookup name apps)) [
    | inl unknown ↦ absurd (Founded-known f unknown)
    | inr (app, known) ↦ rw known (
        visit_app-Succeeds fuel (visit fuel apps) name app (lookup name marks) marks
          (visit-Succeeds fuel) known refl h f above)
  ]

  -- Between two names of the outer loop no name is open.
  visit_names-Succeeds :
      (l : List (Text × App)) (marks : Marks)
      → ((name : Text) (app : App) → In (name, app) l → Founded apps name)
      → ((g : Text) → ¬ (lookup g marks ≡ some visiting))
      → Succeeds marks (visit_names apps l marks)
  unfolding visit_names
  visit_names-Succeeds [] marks f closed = (omega arith, λ g e. e)
  visit_names-Succeeds ((name, app) ∷ rest) marks f closed =
      Succeeds-bind marks (visit (suc (length apps)) apps name marks) (visit_names apps rest)
        (visit-Succeeds (suc (length apps)) name marks
          (omega (arith, unmarked-le-length apps marks)) (f name app (inl refl))
          (λ g e. absurd (closed g e)))
        (λ middle kept.
          visit_names-Succeeds rest middle (λ n a i. f n a (inr i)) (λ g e. closed g (kept.1 g e)))

accepted :
    (apps : Apps) (r : Result DependencyError Marks)
    → Succeeds apps [] r
    → (marks : Marks) × (r ≡ ok marks)
accepted apps (err e) s = absurd s
accepted apps (ok marks) s = (marks, refl)

-- A configuration is accepted exactly when each of its apps is founded: its dependencies exist, none of
-- them is scheduled, and no chain of them goes on for ever.
pub validate_dependencies_iff :
    (apps : Apps)
    → ((marks : Marks) × (validate_dependencies apps ≡ ok marks))
      ↔ ((name : Text) (app : App) → In (name, app) apps → Founded apps name)
unfolding validate_dependencies lookup
validate_dependencies_iff apps = (
  λ p. validate_dependencies-Founded apps p.0 p.1,
  λ f.
      accepted apps (visit_names apps apps [])
        (visit_names-Succeeds apps apps [] f (λ g e. none-ne-some _ e)),
)
