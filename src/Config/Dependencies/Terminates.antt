-- ===== src/Config/Dependencies/Terminates.antt =====
-- The search ends: each nested call marks an app, so it never runs out of its fuel.
use ooth.Prelude.{
  ℕ, zero, suc, ◌+◌, ◌≤◌, ◌<◌, ◌≡◌, ◌≢◌, refl, sym, inl, inr, true, Option, none, some, List, [],
  ◌∷◌, if◌then◌else◌, is_some, Result, ok, err, ◌>>=◌, Bool-cases, Option-cases, arith, length,
}
use mathlib.Core.Path.{subst}
use ooth.Prelude.Texts.{Text, text_eq, text_eq_iff}
use ooth.Prelude.Maps.{lookup, insert, lookup-insert}
use ooth.Config.App.{App, dependencies}
use ooth.Config.Dependencies.{
  Apps, Mark, visiting, visited, Marks, DependencyError, out_of_fuel, is_scheduled, visit_all,
  visit_app, visit_known, visit, visit_names, validate_dependencies,
}

-- The entries that the search has not reached.
unfoldable pub unmarked : List (Text × App) → Marks → ℕ
unmarked [] marks = 0
unmarked ((name, app) ∷ rest) marks =
    (if is_some (lookup name marks) then 0 else 1) + unmarked rest marks

pub unmarked-le-length : (l : List (Text × App)) (marks : Marks) → unmarked l marks ≤ length l
unfolding unmarked
unmarked-le-length [] marks = omega arith
unmarked-le-length ((name, app) ∷ rest) marks = ground (arith, unmarked-le-length rest marks)

pub unmarked-insert :
    (l : List (Text × App)) (name : Text) (mark : Mark) (marks : Marks)
    → unmarked l (insert name mark marks) ≤ unmarked l marks
unfolding unmarked
unmarked-insert [] name mark marks = omega arith
unmarked-insert ((other, app) ∷ rest) name mark marks =
    ground (arith, lookup-insert name other mark marks, unmarked-insert rest name mark marks)

-- A name of the list that had no mark is one fewer.
pub unmarked_marks :
    (l : List (Text × App)) (name : Text) (app : App) (mark : Mark) (marks : Marks)
    → lookup name l ≡ some app
    → lookup name marks ≡ none
    → unmarked l (insert name mark marks) < unmarked l marks
unfolding unmarked lookup
unmarked_marks [] name app mark marks known fresh = cc
unmarked_marks ((other, config) ∷ rest) name app mark marks known fresh =
    elim (Bool-cases (text_eq other name)) [
      | inl same ↦
          let e : name ≡ other = sym ((text_eq_iff other name).0 same) in
          let here : lookup other marks ≡ none = subst (λ n. lookup n marks ≡ none) e fresh in
          let eq : text_eq name other ≡ true = (text_eq_iff name other).1 e in
          let new = rw eq at (lookup-insert name other mark marks) in
          rw here (rw new (omega (arith, unmarked-insert rest name mark marks)))
      | inr differs ↦
          let later = unmarked_marks rest name app mark marks (rw differs at known) fresh in
          ground (arith, lookup-insert name other mark marks, later)
    ]

module _ (apps : Apps) where
  -- What a visit that starts at these marks may end in: marks that cover no fewer apps, or an error that
  -- the code has.
  abbrev pub Ends : Marks → Result DependencyError Marks → Type 0
  Ends marks (ok result) = unmarked apps result ≤ unmarked apps marks
  Ends marks (err e) = e ≢ out_of_fuel

  Ends-bind :
      (marks : Marks) (r : Result DependencyError Marks) (f : Marks → Result DependencyError Marks)
      → Ends marks r
      → ((middle : Marks) → unmarked apps middle ≤ unmarked apps marks → Ends marks (f middle))
      → Ends marks (r >>= f)
  Ends-bind marks (ok middle) f h g = g middle h
  Ends-bind marks (err e) f h g = h

  Ends-weaken :
      (few many : Marks) (r : Result DependencyError Marks)
      → unmarked apps few ≤ unmarked apps many
      → Ends few r
      → Ends many r
  Ends-weaken few many (ok result) h e = omega (arith, h, e)
  Ends-weaken few many (err e) h n = n

  abbrev EndsBelow : ℕ → (Text → Marks → Result DependencyError Marks) → Type 0
  EndsBelow fuel go =
      (name : Text) (marks : Marks) → unmarked apps marks < fuel → Ends marks (go name marks)

  visit_all-Ends :
      (fuel : ℕ) (go : Text → Marks → Result DependencyError Marks) (name : Text)
      (l : List (Text × Text)) (marks : Marks)
      → EndsBelow fuel go
      → unmarked apps marks < fuel
      → Ends marks (visit_all go apps name l marks)
  unfolding visit_all
  visit_all-Ends fuel go name [] marks g h = omega arith
  visit_all-Ends fuel go name ((dependency, condition) ∷ rest) marks g h =
      elim (Bool-cases (is_scheduled apps dependency)) [
        | inl scheduled ↦ rw scheduled (λ e. cc)
        | inr plain ↦ rw plain (
            Ends-bind marks (go dependency marks) (visit_all go apps name rest)
              (g dependency marks h)
              (λ middle less.
                Ends-weaken middle marks _ less
                  (visit_all-Ends fuel go name rest middle g (omega (arith, h, less)))))
      ]

  visit_app-Ends :
      (fuel : ℕ) (go : Text → Marks → Result DependencyError Marks) (name : Text) (app : App)
      (mark : Option Mark) (marks : Marks)
      → EndsBelow fuel go
      → lookup name apps ≡ some app
      → lookup name marks ≡ mark
      → unmarked apps marks < suc fuel
      → Ends marks (visit_app go apps name app mark marks)
  unfolding visit_app
  visit_app-Ends fuel go name app (some visiting) marks g known mark h = λ e. cc
  visit_app-Ends fuel go name app (some visited) marks g known mark h = omega arith
  visit_app-Ends fuel go name app none marks g known mark h =
      let entered = insert name visiting marks in
      let less = unmarked_marks apps name app visiting marks known mark in
      Ends-bind marks (visit_all go apps name (dependencies app) entered) _
        (Ends-weaken entered marks _ (omega (arith, less))
          (visit_all-Ends fuel go name (dependencies app) entered g (omega (arith, less, h))))
        (λ middle k. omega (arith, unmarked-insert apps name visited middle, k))

  visit-Ends : (fuel : ℕ) → EndsBelow fuel (visit fuel apps)
  unfolding visit visit_known
  visit-Ends zero name marks h = absurd (omega (arith, h))
  visit-Ends (suc fuel) name marks h = elim (Option-cases (lookup name apps)) [
    | inl unknown ↦ rw unknown (λ e. cc)
    | inr (app, known) ↦ rw known (
        visit_app-Ends fuel (visit fuel apps) name app (lookup name marks) marks (visit-Ends fuel)
          known refl h)
  ]

  visit_names-Ends : (l : List (Text × App)) (marks : Marks) → Ends marks (visit_names apps l marks)
  unfolding visit_names
  visit_names-Ends [] marks = omega arith
  visit_names-Ends ((name, app) ∷ rest) marks =
      Ends-bind marks (visit (suc (length apps)) apps name marks) (visit_names apps rest)
        (visit-Ends (suc (length apps)) name marks (omega (arith, unmarked-le-length apps marks)))
        (λ middle less. Ends-weaken middle marks _ less (visit_names-Ends rest middle))

-- The search of a configuration comes to an end: whatever the apps depend on, it never runs out of
-- the fuel of one call more than there are apps.
pub validate_dependencies-ends : (apps : Apps) → validate_dependencies apps ≢ err out_of_fuel
unfolding validate_dependencies
validate_dependencies-ends apps h = subst (Ends apps []) h (visit_names-Ends apps apps []) refl
