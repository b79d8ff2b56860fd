-- ===== src/Config/Actions.antt =====
-- The actions of `App.validateActions`, and the whole of it.
pub mod Runnable
pub mod Completion
pub mod Limits
pub mod Meaning
use ooth.Prelude.{
  ℕ, zero, suc, ◌+◌, ◌*◌, Bool, true, false, not, ◌&&◌, ◌||◌, ◌==◌, Option, none, some, List, [],
  ◌∷◌, if◌then◌else◌, is_empty, is_some, any, Result, ok, err, ◌>>=◌, ◌>>◌, refuse_if, wrap,
}
use ooth.Prelude.Signed.{ℤ, pos, ltb_ℤ, leb_ℤ, is_zero}
use ooth.Prelude.Texts.{Text, codes, text_eq}
use ooth.Schedule.Times.{Duration, second}
use ooth.Config.App.{App, HttpRequest, SocketCheck, Action, Trigger}
use ooth.Config.Libraries.{Libraries, Endpoint}
use ooth.Config.Templates.{TemplateError, endpoint, expand_value, expand_action}
use ooth.Config.Triggers.{TriggerError, check_conditions, check_triggers}

pub data ActionError : Type 0 where
  not_one_kind invalid_limits needs_command needs_http needs_udp_reply invalid_key : ActionError
  invalid_expansion : TemplateError → ActionError
  invalid_regexp invalid_request invalid_target invalid_status : ActionError

pub data ActionsError : Type 0 where
  invalid_action : Text → ActionError → ActionsError
  invalid_trigger : TriggerError → ActionsError
  invalid_values : TemplateError → ActionsError

-- `kinds`: how many of the tests hold.
unfoldable pub count_true : List Bool → ℕ
count_true [] = 0
count_true (present ∷ rest) = (if present then 1 else 0) + count_true rest

unfoldable pub kinds : Action → ℕ
unfolding count_true
kinds action = count_true (
    not (is_empty action.command)
    ∷ is_some action.http
    ∷ is_some action.tcp
    ∷ is_some action.udp
    ∷ [])

unfoldable pub default_timeout : Duration → Duration
default_timeout timeout = if is_zero timeout then pos (3 * second) else timeout

unfoldable pub default_backoff : Duration → Duration
default_backoff backoff = if is_zero backoff then pos 100_000_000 else backoff

unfoldable pub with_defaults : Action → Action
with_defaults action = record action {
  timeout = default_timeout action.timeout;
  backoff = default_backoff action.backoff;
}

unfoldable pub bad_limits : Action → Bool
bad_limits action =
    leb_ℤ action.timeout (pos 0)
    || ltb_ℤ action.backoff (pos 0)
    || ltb_ℤ action.retries (pos 0)
    || ltb_ℤ (pos 100) action.retries

unfoldable pub lacks_command : Action → Bool
lacks_command action =
    is_empty action.command
    && (not (is_empty action.env)
        || not (is_empty action.directory)
        || not (is_empty action.expect.exit_codes))

-- `action.UDP != nil && (send == "" || no expectation)`
unfoldable pub lacks_reply : Action → Bool
lacks_reply action = elim action.udp [
  | none ↦ false
  | some check ↦
      is_empty check.send || (is_empty action.expect.contains && is_empty action.expect.regexp)
]

unfoldable pub bad_key : Text × Text → Bool
bad_key (key, value) = is_empty key || any (λ c. c == b'=' || c == 0) key

unfoldable pub bad_status : ℤ → Bool
bad_status status = ltb_ℤ status (pos 100) || ltb_ℤ (pos 599) status

-- The scheme and the host that `http.NewRequest` reads.
unfoldable pub bad_request : Option (Text × Text) → Bool
bad_request none = true
bad_request (some (scheme, host)) =
    not (text_eq scheme (codes "http") || text_eq scheme (codes "https")) || is_empty host

module _ (libraries : Libraries) where
  unfoldable pub bad_http : Option HttpRequest → Bool
  unfolding bad_request
  bad_http none = false
  bad_http (some request) = bad_request (libraries.request_target request.method request.url)

  unfoldable pub bad_check : Option SocketCheck → Bool
  bad_check none = false
  bad_check (some check) = not (is_some (libraries.split_host_port check.address))

  -- What is asked of the expanded action.
  unfoldable pub check_expanded : Action → Result ActionError (Unit {0})
  unfolding bad_http bad_check
  check_expanded expanded = do
    refuse_if
        (not (is_empty expanded.expect.regexp) && not (libraries.compiles expanded.expect.regexp))
        invalid_regexp
    refuse_if (bad_http expanded.http) invalid_request
    refuse_if (bad_check expanded.tcp) invalid_target
    refuse_if (bad_check expanded.udp) invalid_target

  module _ (expand : Text → Result TemplateError Text) where
    unfoldable pub check_defaulted : Text → Action → Result ActionError Action
    check_defaulted name action = do
      refuse_if (bad_limits action) invalid_limits
      refuse_if (lacks_command action) needs_command
      refuse_if (not (is_some action.http) && not (is_empty action.expect.status)) needs_http
      refuse_if (lacks_reply action) needs_udp_reply
      refuse_if (any bad_key action.env) invalid_key
      expanded ← wrap invalid_expansion (expand_action expand action)
      check_expanded expanded
      refuse_if (any bad_status action.expect.status) invalid_status
      ok action

    -- The action itself is kept, not its expansion.
    unfoldable pub check_action : Text → Action → Result ActionError Action
    check_action name action = do
      refuse_if (is_empty name || not (kinds action == 1)) not_one_kind
      check_defaulted name (with_defaults action)

    unfoldable pub check_actions : List (Text × Action) → Result ActionsError (List (Text × Action))
    check_actions [] = ok []
    check_actions ((name, action) ∷ rest) = do
      action' ← wrap (invalid_action name) (check_action name action)
      rest' ← check_actions rest
      ok ((name, action') ∷ rest')

  unfoldable pub validate_actions : App → Result ActionsError App
  validate_actions app = do
    wrap invalid_trigger (check_conditions app.requires app.conditions)
    e ← wrap invalid_values (endpoint libraries app app.listen.address)
    actions' ← check_actions (expand_value (libraries.render app e)) app.actions
    triggers' ← wrap invalid_trigger (check_triggers actions' app.triggers)
    ok (record app { actions = actions'; triggers = triggers' })
