-- ===== src/Config/Validation.antt =====
-- `App.validate`: what a configuration of an app must satisfy by itself. The operating system is a
-- parameter, as is `time.ParseDuration`.
pub mod Refusals
pub mod Words
pub mod Service
pub mod Meaning
use ooth.Prelude.{
  ℕ, ◌*◌, Bool, true, false, not, ◌&&◌, ◌||◌, Option, none, some, List, [], ◌∷◌, leb, ltb, ◌==◌,
  if◌then◌else◌, is_empty, is_some, any, Result, ok, err, ◌>>=◌, ◌>>◌, refuse_if,
}
use ooth.Prelude.Signed.{ℤ, pos, negsuc, leb_ℤ, ltb_ℤ, is_zero}
use ooth.Prelude.Texts.{Text, codes, text_eq, contains, atoi, cut_text, starts_with}
use ooth.Schedule.Times.{Duration}
use ooth.Schedule.Plan.{ScheduleError, Plan, parse_schedule}
use ooth.Config.App.{App, Percent, one_percent}

pub data ValidationError : Type 0 where
  invalid_schedule : ScheduleError → ValidationError
  schedule_needs_no_service overlap_needs_schedule negative_max_exec_time : ValidationError
  invalid_socket_mode : ValidationError
  password_needs_user password_is_for_windows group_is_for_linux : ValidationError
  no_command unknown_network incomplete_listen : ValidationError
  invalid_handoff handoff_is_for_linux invalid_ready : ValidationError
  invalid_workers invalid_timeouts invalid_scale_at : ValidationError
  invalid_variable : Text → ValidationError

abbrev pub Checked : Type 0
Checked = Result ValidationError (Unit {0})

unfoldable pub schedule_checked : Result ScheduleError Plan → Checked
schedule_checked (ok plan) = ok tt
schedule_checked (err e) = err (invalid_schedule e)

unfoldable pub check_schedule : (Text → Option Duration) → App → Checked
check_schedule parse_duration app = do
  schedule_checked (parse_schedule parse_duration app.schedule)
  refuse_if
      (not (is_empty app.schedule)
        && (not (is_empty app.listen.network) || app.startup || not (is_zero app.min_workers)))
      schedule_needs_no_service
  refuse_if (app.overlap && is_empty app.schedule) overlap_needs_schedule
  refuse_if (ltb_ℤ app.max_exec_time (pos 0)) negative_max_exec_time

-- The condition on the mode of a socket.
unfoldable pub bad_mode : Text → Text → Option ℕ → Bool
bad_mode goos network none = false
bad_mode goos network (some mode) =
    not (text_eq goos (codes "linux")) || not (text_eq network (codes "unix")) || ltb 0o777 mode

unfoldable pub check_identity : Text → App → Checked
check_identity goos app = do
  refuse_if (bad_mode goos app.listen.network app.socket_mode) invalid_socket_mode
  refuse_if (is_some app.identity.password && is_empty app.identity.user) password_needs_user
  refuse_if (text_eq goos (codes "linux") && is_some app.identity.password) password_is_for_windows
  refuse_if (text_eq goos (codes "windows") && not (is_empty app.identity.group)) group_is_for_linux

abbrev pub networks : List Text
networks = [] ∷ codes "tcp" ∷ codes "tcp4" ∷ codes "tcp6" ∷ codes "unix" ∷ []

-- `len(app.Command) == 0 || app.Command[0] == ""`
unfoldable pub has_no_program : List Text → Bool
has_no_program [] = true
has_no_program (program ∷ arguments) = is_empty program

unfoldable pub check_command : App → Checked
check_command app = do
  refuse_if (has_no_program app.command) no_command
  refuse_if (not (contains networks app.listen.network)) unknown_network
  refuse_if
      (if is_empty app.listen.network
        then not (is_empty app.listen.address)
        else is_empty app.listen.address)
      incomplete_listen

abbrev pub named_handoffs : List Text
named_handoffs = [] ∷ codes "env" ∷ codes "stdin" ∷ codes "0" ∷ []

unfoldable pub check_fd : Text → Option ℤ → Checked
check_fd goos none = err invalid_handoff
check_fd goos (some fd) = do
  refuse_if (ltb_ℤ fd (pos 3) || ltb_ℤ (pos 1024) fd) invalid_handoff
  refuse_if (not (text_eq goos (codes "linux"))) handoff_is_for_linux

unfoldable pub check_handoff : Text → App → Checked
check_handoff goos app =
    if contains named_handoffs app.socket_handoff
    then ok tt
    else check_fd goos (atoi app.socket_handoff)

-- `!ok || address == "" || (network != "tcp" && network != "unix")`
unfoldable pub bad_target : Option (Text × Text) → Bool
bad_target none = true
bad_target (some (network, address)) =
    is_empty address || not (text_eq network (codes "tcp") || text_eq network (codes "unix"))

unfoldable pub check_ready : App → Checked
check_ready app =
    if text_eq app.ready (codes "event") || text_eq app.ready (codes "started")
    then ok tt
    else refuse_if (bad_target (cut_text (codes "://") app.ready)) invalid_ready

unfoldable pub check_limits : App → Checked
check_limits app = do
  refuse_if
      (ltb_ℤ app.min_workers (pos 0)
        || ltb_ℤ app.max_workers (pos 1)
        || ltb_ℤ app.max_workers app.min_workers
        || ltb_ℤ app.concurrency (pos 1))
      invalid_workers
  refuse_if
      (leb_ℤ app.idle_timeout (pos 0)
        || leb_ℤ app.start_timeout (pos 0)
        || leb_ℤ app.stop_timeout (pos 0)
        || leb_ℤ app.scale_window (pos 0)
        || ltb_ℤ app.scale_delay (pos 0)
        || ltb_ℤ app.request_timeout (pos 0))
      invalid_timeouts
  refuse_if (app.scale_at == 0 || ltb (100 * one_percent) app.scale_at) invalid_scale_at

abbrev pub cuts_a_variable : ℕ → Bool
cuts_a_variable c = c == b'=' || c == 0

unfoldable pub bad_variable : Text → Text → Bool
bad_variable key value =
    is_empty key
    || any cuts_a_variable key
    || any (λ c. c == 0) value
    || starts_with (codes "OOTH_") key

unfoldable pub check_env : List (Text × Text) → Checked
check_env [] = ok tt
check_env ((key, value) ∷ rest) = do
  refuse_if (bad_variable key value) (invalid_variable key)
  check_env rest

unfoldable pub validate : Text → (Text → Option Duration) → App → Checked
validate goos parse_duration app = do
  check_schedule parse_duration app
  check_identity goos app
  check_command app
  check_handoff goos app
  check_ready app
  check_limits app
  check_env app.env
