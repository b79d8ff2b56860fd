-- ===== src/Config/Actions/Meaning.antt =====
-- The actions that `validateActions` leaves in a configuration.
use ooth.Prelude.{
  ◌≡◌, ◌≢◌, refl, sym, true, not, ◌==◌, Option, List, [], ◌∷◌, not-false, is_empty, All, Result, ok,
  refuse_if-passed, wrap, wrap-ok, >>=-eq-ok, ok_inj,
}
use mathlib.Core.Path.{subst}
use ooth.Prelude.Texts.{Text}
use ooth.Config.App.{App, Action}
use ooth.Config.Libraries.{Libraries, Endpoint}
use ooth.Config.Templates.{TemplateError, endpoint, expand_value, expand_action}
use ooth.Config.Triggers.{check_conditions, check_triggers}
use ooth.Config.Triggers.Meaning.{AreTriggers, check_triggers-AreTriggers}
use ooth.Config.Validation.Refusals.{||-false_iff, same_iff, any-false_iff, is_empty-false_iff}
use ooth.Config.Actions.{
  invalid_action, invalid_trigger, invalid_values, invalid_expansion, kinds, with_defaults, bad_key,
  bad_status, check_expanded, check_defaulted, check_action, check_actions, validate_actions,
}
use ooth.Config.Actions.Runnable.{check_expanded-IsRunnable}
use ooth.Config.Actions.Completion.{IsCompleted, AreCompleted, with_defaults-IsCompleted}
use ooth.Config.Actions.Limits.{
  IsKind, kinds-IsKind, IsAction, retries_limit, status_range, key_passed, reply_given,
  limits_passed, command_only_passed, http_only_passed,
}

module _ (libraries : Libraries) (expand : Text → Result TemplateError Text) where
  check_defaulted-IsAction :
      (name : Text) (action : Action) {result : Action}
      → IsKind action
      → check_defaulted libraries expand name action ≡ ok result
      → IsAction libraries expand action × (result ≡ action)
  unfolding check_defaulted
  check_defaulted-IsAction name action kind h =
      let (limits, h1) = refuse_if-passed _ _ _ h in
      let (command_only, h2) = refuse_if-passed _ _ _ h1 in
      let (http_only, h3) = refuse_if-passed _ _ _ h2 in
      let (reply, h4) = refuse_if-passed _ _ _ h3 in
      let (keys, h5) = refuse_if-passed _ _ _ h4 in
      let (expanded, wrapped, h6) =
        >>=-eq-ok (wrap invalid_expansion (expand_action expand action)) _ h5 in
      let (passed, runnable, h7) = >>=-eq-ok (check_expanded libraries expanded) _ h6 in
      let (statuses, h8) = refuse_if-passed _ _ _ h7 in
      let bounds = limits_passed action limits in
      (
        record {
          kind = kind;
          timeout = bounds.0.0.0;
          backoff = bounds.0.0.1;
          retries = retries_limit action.retries bounds.0.1 bounds.1;
          command_only = command_only_passed action command_only;
          http_only = http_only_passed action http_only;
          reply = λ check e. reply_given action check reply e;
          statuses = λ status i. status_range status (
              (any-false_iff bad_status action.expect.status (λ s. same_iff _ _)).0 statuses status
                i);
          keys = λ key value i.
              key_passed key value
                ((any-false_iff bad_key action.env (λ entry. same_iff _ _)).0 keys (key, value) i);
          expansion = (
            expanded,
            wrap-ok invalid_expansion _ wrapped,
            check_expanded-IsRunnable libraries expanded runnable,
          );
        },
        sym (ok_inj h8),
      )

  check_action-IsAction :
      (name : Text) (action : Action) {result : Action}
      → check_action libraries expand name action ≡ ok result
      → (name ≢ []) × IsCompleted action result × IsAction libraries expand result
  unfolding check_action with_defaults kinds
  check_action-IsAction name action h =
      let (kind, h1) = refuse_if-passed _ _ _ h in
      let (named, single) =
        (||-false_iff (is_empty name) (not (kinds action == 1)) (is_empty-false_iff name)
            (same_iff _ _)).0
          kind in
      let one : (kinds (with_defaults action) == 1) ≡ true = not-false _ single in
      let (valid, same) =
        check_defaulted-IsAction name (with_defaults action)
          (kinds-IsKind (with_defaults action) one) h1 in
      (
        named,
        subst (IsCompleted action) (sym same) (with_defaults-IsCompleted action),
        subst (IsAction libraries expand) (sym same) valid,
      )

  check_actions-All :
      (actions : List (Text × Action)) {result : List (Text × Action)}
      → check_actions libraries expand actions ≡ ok result
      → AreCompleted actions result × All (λ p. IsAction libraries expand p.1) result
  unfolding check_actions
  check_actions-All [] h = rw (← (ok_inj h)) (tt, tt)
  check_actions-All ((name, action) ∷ rest) h =
      let (action', wrapped, h1) =
        >>=-eq-ok (wrap (invalid_action name) (check_action libraries expand name action)) _ h in
      let (rest', others, h2) = >>=-eq-ok (check_actions libraries expand rest) _ h1 in
      let (named, completed, valid) =
        check_action-IsAction name action (wrap-ok (invalid_action name) _ wrapped) in
      let (all_completed, all_valid) = check_actions-All rest others in
      rw (← (ok_inj h2)) (((named, refl, completed), all_completed), (valid, all_valid))

-- An app whose actions and triggers are accepted keeps all its other fields, and its actions keep
-- their names, none of which is empty, and all but the timeouts and the backoffs that they leave out;
-- each of its actions is of exactly one kind, is bounded in time and in retries, asks only for what
-- its kind can give, has environment keys that can be set and expands to one whose regular expression
-- compiles, whose request goes over HTTP or HTTPS to some host, and whose addresses have a host and a
-- port; and its triggers are complete and refer to these actions.
pub validate_actions-IsAction :
    (libraries : Libraries) (app result : App)
    → validate_actions libraries app ≡ ok result
    → (result ≡ record app { actions = result.actions; triggers = result.triggers })
      × ((e : Option Endpoint) × (endpoint libraries app app.listen.address ≡ ok e)
          × AreCompleted app.actions result.actions
          × All
              (λ p. IsAction libraries (expand_value (libraries.render app e)) p.1)
              result.actions)
      × AreTriggers result.actions result.triggers
unfolding validate_actions
validate_actions-IsAction libraries app result h =
    let (known, conditions, h1) =
      >>=-eq-ok (wrap invalid_trigger (check_conditions app.requires app.conditions)) _ h in
    let (e, valued, h2) =
      >>=-eq-ok (wrap invalid_values (endpoint libraries app app.listen.address)) _ h1 in
    let (actions', acted, h3) =
      >>=-eq-ok (check_actions libraries (expand_value (libraries.render app e)) app.actions) _
        h2 in
    let (triggers', triggered, h4) =
      >>=-eq-ok (wrap invalid_trigger (check_triggers actions' app.triggers)) _ h3 in
    let (all_completed, all_valid) =
      check_actions-All libraries (expand_value (libraries.render app e)) app.actions acted in
    rw (← (ok_inj h4)) (
      refl,
      (e, wrap-ok invalid_values _ valued, all_completed, all_valid),
      check_triggers-AreTriggers actions' app.triggers triggers'
          (wrap-ok invalid_trigger _ triggered),
    )
