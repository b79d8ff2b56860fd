-- ===== src/Config/Load/Addition.antt =====
-- What is known of an app once `Load` has taken it into its snapshot.
use ooth.Prelude.{
  ◌≡◌, refl, sym, ap, Bool, true, false, not, Option, none, some, List, ◌∷◌, is_empty,
  if◌then◌else◌, ok, wrap, wrap-ok, >>=-eq-ok, ok_inj, err-ne-ok,
}
use mathlib.Core.Bool.{false≢true}
use mathlib.Core.Path.{subst}
use ooth.Prelude.Texts.{Text}
use ooth.Prelude.Maps.{insert}
use ooth.Config.App.{App, RestartRule, Action, Trigger}
use ooth.Config.Validation.{validate}
use ooth.Config.Validation.Words.{HasSchedule, HasHandoff, HasReady, HasLimits, HasEnv}
use ooth.Config.Validation.Meaning.{IsValid, validate-IsValid}
use ooth.Config.Templates.{expand_launch}
use ooth.Config.Actions.{validate_actions}
use ooth.Config.Actions.Meaning.{validate_actions-IsAction}
use ooth.Config.Triggers.Meaning.{AreTriggers}
use ooth.Config.Sources.{
  Sources, Loading, default_ready, check_listener, listener, invalid_app, invalid_launch,
  invalid_actions,
}
use ooth.Config.Load.{
  located, resolved_socket, check_rules, take_app, launch_app, check_app, add_app,
}

module _ (sources : Sources) where
  open sources use {libraries}

  -- The bounds of an app, its readiness, its handoff, its schedule and its environment.
  pub record IsSettled (app : App) : Type 0 where
    pub schedule : HasSchedule libraries.parse_duration app
    pub handoff : HasHandoff libraries.goos app
    pub ready : HasReady app
    pub limits : HasLimits app
    pub env : HasEnv app

  -- These, after its paths were made absolute, and its complete triggers.
  pub record IsLoaded (app : App) : Type 0 where
    pub settled : IsSettled app
    pub triggers : AreTriggers app.actions app.triggers

  located-IsSettled :
      (default_password : Option Text) (file : Text) (app : App)
      → IsValid libraries.goos libraries.parse_duration app
      → IsSettled (located sources default_password file app)
  unfolding located resolved_socket
  located-IsSettled default_password file app valid = record {
    schedule = valid.schedule;
    handoff = valid.handoff;
    ready = valid.ready;
    limits = valid.limits;
    env = valid.env;
  }

  -- The app that is added, and what the snapshot then has.
  pub record Added (name : Text) (loading result : Loading) : Type 0 where
    pub app : App
    pub file : Text
    pub loaded : IsLoaded app
    pub own_name : app.name ≡ name
    pub apps : result.apps ≡ insert name app loading.apps
    pub sockets : result.sockets ≡ (
        if not (is_empty app.listen.network)
        then (app.listen, file) ∷ loading.sockets
        else loading.sockets)
    pub fresh :
        not (is_empty app.listen.network) ≡ true → listener app.listen loading.sockets ≡ none

  listener_free :
      (file : Text) (serves : Bool) (taken : Option Text)
      → check_listener file serves taken ≡ ok tt
      → serves ≡ true
      → taken ≡ none
  unfolding check_listener
  listener_free file serves none h s = refl
  listener_free file true (some previous) h s = absurd (err-ne-ok h)
  listener_free file false (some previous) h s = absurd (false≢true s)

  same-IsSettled :
      (app : App) (rules : List RestartRule)
      → IsSettled app
      → IsSettled (record app { restart_on = rules })
  same-IsSettled app rules b = record {
    schedule = b.schedule;
    handoff = b.handoff;
    ready = b.ready;
    limits = b.limits;
    env = b.env;
  }

  with_actions :
      (app : App) (actions : List (Text × Action)) (triggers : List (Text × List Trigger))
      → IsSettled app
      → AreTriggers actions triggers
      → IsLoaded (record app { actions = actions; triggers = triggers })
  with_actions app actions triggers b t = record {
    settled = record {
      schedule = b.schedule;
      handoff = b.handoff;
      ready = b.ready;
      limits = b.limits;
      env = b.env;
    };
    triggers = t;
  }

  take_app-Added :
      (file : Text) (app : App) (loading result : Loading)
      → IsLoaded app
      → take_app sources file app loading ≡ ok result
      → Added app.name loading result
  unfolding take_app
  take_app-Added file app loading result l h =
      let (rules, ruled, h1) = >>=-eq-ok (check_rules sources file app.restart_on) _ h in
      let (free, open_socket, h2) =
        >>=-eq-ok
          (check_listener file (not (is_empty app.listen.network))
            (listener app.listen loading.sockets))
          _ h1 in
      subst (Added app.name loading) (ok_inj h2) (record {
        app = record app { restart_on = rules.0 };
        file = file;
        loaded = record { settled = same-IsSettled app rules.0 l.settled; triggers = l.triggers };
        own_name = refl;
        apps = refl;
        sockets = refl;
        fresh = listener_free file (not (is_empty app.listen.network)) _ open_socket;
      })

  launch_app-Added :
      (file : Text) (app : App) (loading result : Loading)
      → IsSettled app
      → launch_app sources file app loading ≡ ok result
      → Added app.name loading result
  unfolding launch_app
  launch_app-Added file app loading result b h =
      let (launch, launched, h1) =
        >>=-eq-ok (wrap (invalid_launch file) (expand_launch libraries app app.listen.address)) _
          h in
      let (app', acted, taken) =
        >>=-eq-ok (wrap (invalid_actions file) (validate_actions libraries app)) _ h1 in
      let (same, expansions, triggers) =
        validate_actions-IsAction libraries app app' (wrap-ok (invalid_actions file) _ acted) in
      let loaded : IsLoaded app' =
        subst IsLoaded (sym same) (with_actions app app'.actions app'.triggers b triggers) in
      subst (λ n. Added n loading result) (ap App.name same)
        (take_app-Added file app' loading result loaded taken)

  check_app-Added :
      (default_password : Option Text) (file : Text) (app : App) (loading result : Loading)
      → check_app sources default_password file app loading ≡ ok result
      → Added app.name loading result
  unfolding check_app located
  check_app-Added default_password file app loading result h =
      let (checked, valid, h1) =
        >>=-eq-ok (wrap (invalid_app file) (validate libraries.goos libraries.parse_duration app)) _
          h in
      launch_app-Added file (located sources default_password file app) loading result
        (located-IsSettled default_password file app (
          (validate-IsValid libraries.goos libraries.parse_duration app).0
            (wrap-ok (invalid_app file) _ valid)))
        h1

  pub add_app-Added :
      (default_password : Option Text) (file : Text) (app : App) (loading result : Loading)
      → add_app sources default_password file app loading ≡ ok result
      → Added app.name loading result
  unfolding add_app
  add_app-Added default_password file app loading result h =
      check_app-Added default_password file (record app { ready = default_ready app.ready }) loading
        result h
