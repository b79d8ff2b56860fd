-- ===== src/Config/Load/Sound.antt =====
-- What holds of every snapshot that `Load` returns.
use ooth.Prelude.{
  ◌≡◌, true, not, Option, none, some, List, [], ◌∷◌, is_empty, In, ok, refuse_if-passed, wrap,
  wrap-ok, >>=-eq-ok, ok_inj, err-ne-ok,
}
use mathlib.Core.Path.{subst}
use ooth.Prelude.Texts.{Text}
use ooth.Config.App.{App}
use ooth.Config.Dependencies.{validate_dependencies}
use ooth.Config.Dependencies.Founded.{Founded, validate_dependencies-Founded}
use ooth.Config.Sources.{
  Sources, Main, Loaded, Loading, bad_percentages, invalid_dependencies, no_watch,
  invalid_percentages,
}
use ooth.Config.Load.{load_patterns, default_password, finish_load, load_apps, load}
use ooth.Config.Load.Addition.{IsLoaded}
use ooth.Config.Load.Gathering.{IsLoading, load_patterns-IsLoading}

-- The apps of a snapshot.
pub record IsSnapshot (sources : Sources) (apps : List (Text × App)) : Type 0 where
  pub loaded :
      (name : Text) (app : App) → In (name, app) apps → (app.name ≡ name) × IsLoaded sources app
  pub dependencies : (name : Text) (app : App) → In (name, app) apps → Founded apps name
  pub listeners :
      (n m : Text) (a b : App)
      → In (n, a) apps
      → In (m, b) apps
      → not (is_empty a.listen.network) ≡ true
      → a.listen ≡ b.listen
      → n ≡ m

module _ (sources : Sources) where
  finish_load-IsSnapshot :
      (directory : Text) (main : Main) (l : Loading) (result : Loaded)
      → IsLoading sources l
      → finish_load sources directory main l ≡ ok result
      → IsSnapshot sources result.apps
  unfolding finish_load
  finish_load-IsSnapshot directory main l result inv h =
      let (marks, sorted, h1) =
        >>=-eq-ok (wrap invalid_dependencies (validate_dependencies l.apps)) _ h in
      subst (λ (r : Loaded). IsSnapshot sources r.apps) (ok_inj h1)
        (record {
          loaded = inv.loaded;
          dependencies =
              validate_dependencies-Founded l.apps marks (wrap-ok invalid_dependencies _ sorted);
          listeners = inv.distinct;
        })

  load_apps-IsSnapshot :
      (directory : Text) (main : Main) (password : Option Text) (result : Loaded)
      → load_apps sources directory main password ≡ ok result
      → IsSnapshot sources result.apps
  unfolding load_apps
  load_apps-IsSnapshot directory main password result h =
      let start : Loading = record { apps = []; roots = directory ∷ []; sockets = [] } in
      let (l, gathered, h1) =
        >>=-eq-ok (load_patterns sources password directory main.watch start) _ h in
      finish_load-IsSnapshot directory main l result
        (load_patterns-IsLoading sources password directory main.watch start l
          (record {
            loaded = λ n a i. absurd i;
            registered = λ n a i. absurd i;
            distinct = λ n k a b i. absurd i;
          })
          gathered)
        h1

-- In a snapshot that is loaded, every app goes by its own name and has the schedule, the handoff, the
-- readiness, the bounds and the environment that `validate` asks for, and complete triggers; its
-- dependencies exist, are no scheduled apps, and form no infinite chain; and no two apps have the
-- same listener.
pub load-IsSnapshot :
    (sources : Sources) (path : Text) (main : Option Main) (result : Loaded)
    → load sources path main ≡ ok result
    → IsSnapshot sources result.apps
unfolding load
load-IsSnapshot sources path none result h = absurd (err-ne-ok h)
load-IsSnapshot sources path (some main) result h =
    let (password, secret, h1) =
      >>=-eq-ok (default_password sources main.windows_password_secret) _ h in
    let (watches, h2) = refuse_if-passed (is_empty main.watch) no_watch _ h1 in
    let (percentages, h3) =
      refuse_if-passed (bad_percentages main.resources) invalid_percentages _ h2 in
    load_apps-IsSnapshot sources (sources.libraries.dir path) main password result h3
