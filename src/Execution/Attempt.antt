-- ===== src/Execution/Attempt.antt =====
-- The verdicts of `Action.attempt`: what it makes of a command that has run, of an HTTP response, and
-- of what a TCP or UDP connection gives. The system's answers are parameters.
pub mod Replies
use ooth.Prelude.{
  ℕ, zero, suc, ◌+◌, Bool, true, false, not, ◌&&◌, ◌||◌, Option, none, some, List, [], ◌∷◌, ◌++◌,
  if◌then◌else◌, is_empty, is_some, any, ltb, length, Result, ok, err, ◌>>=◌, ◌>>◌, refuse_if,
}
use ooth.Prelude.Signed.{ℤ, pos, negsuc, ltb_ℤ, leb_ℤ, eq_ℤ}
use ooth.Prelude.Texts.{Text, text_eq}
use ooth.Config.App.{Action, Expectation, HttpRequest, SocketCheck}
use ooth.Execution.{ActionOutput, action_output_limit, matches}

pub data AttemptError : Type 0 where
  no_environment no_identity not_started not_cleaned expired not_completed : AttemptError
  unexpected_code unexpected_status : ℤ → AttemptError
  output_too_long expectation_failed invalid_request request_failed read_failed : AttemptError
  connection_failed send_failed : AttemptError

-- What the system answers for a command: each flag says that the step succeeded.
pub record CommandRun : Type 0 where
  pub expanded : Bool
  pub identified : Bool
  pub started : Bool
  pub cleaned : Bool
  pub in_time : Bool
  pub completed : Bool
  pub exit_code : ℤ
  pub output : ActionOutput

-- slices.Contains on integers
abbrev pub contains_code : List ℤ → ℤ → Bool
contains_code codes code = any (eq_ℤ code) codes

-- The codes that are expected: zero, unless others are given.
unfoldable pub expected_codes : List ℤ → List ℤ
expected_codes [] = pos 0 ∷ []
expected_codes (code ∷ codes) = code ∷ codes

unfoldable pub bad_response : List ℤ → ℤ → Bool
bad_response expected status =
    if not (is_empty expected)
    then not (contains_code expected status)
    else ltb_ℤ status (pos 200) || leb_ℤ (pos 300) status

module _ (matched : Text → Text → Bool) where
  unfoldable pub attempt_command : Action → CommandRun → Result AttemptError (Unit {0})
  attempt_command action run = do
    refuse_if (not run.expanded) no_environment
    refuse_if (not run.identified) no_identity
    refuse_if (not run.started) not_started
    refuse_if (not run.cleaned) not_cleaned
    refuse_if (not run.in_time) expired
    refuse_if (not run.completed) not_completed
    refuse_if (not (contains_code (expected_codes action.expect.exit_codes) run.exit_code))
        (unexpected_code run.exit_code)
    refuse_if run.output.overflow output_too_long
    refuse_if (not (matches matched action.expect run.output.written)) expectation_failed

  -- The body, up to one byte more than the limit; `none` is a failed read.
  unfoldable pub read_body : ℕ → Expectation → Option Text → Result AttemptError (Unit {0})
  read_body limit expect none = err read_failed
  read_body limit expect (some body) = do
    refuse_if (ltb limit (length body)) output_too_long
    refuse_if (not (matches matched expect body)) expectation_failed

  -- `client.Do`: `none` where the request failed.
  unfoldable pub attempt_http :
      ℕ → Action → Bool → Option (ℤ × Option Text) → Result AttemptError (Unit {0})
  unfolding read_body
  attempt_http limit action valid none = do
    refuse_if (not valid) invalid_request
    err request_failed
  attempt_http limit action valid (some (status, body)) = do
    refuse_if (not valid) invalid_request
    refuse_if (bad_response action.expect.status status) (unexpected_status status)
    read_body limit action.expect body

  -- The reads of a connection: each gives some bytes, and says whether it failed. A connection has
  -- a deadline, at which a read that is not in the list fails, with no bytes.
  unfoldable pub read_reply :
      ℕ → Bool → Expectation → Text → List (Text × Bool) → Result AttemptError (Unit {0})
  read_reply limit datagram expect received [] =
      if matches matched expect received then ok tt else err expectation_failed
  read_reply limit datagram expect received ((chunk, failed) ∷ reads) =
      let all_of_it = received ++ chunk in
      let rest = read_reply limit datagram expect all_of_it reads in
      if ltb limit (length all_of_it)
      then err output_too_long
      else if matches matched expect all_of_it
      then ok tt
      else if failed || datagram
      then err expectation_failed
      else rest

  -- `connected` and `sent` say that the steps succeeded.
  unfoldable pub attempt_socket :
      ℕ
      → Action
      → Bool
      → SocketCheck
      → Bool
      → Bool
      → List (Text × Bool)
      → Result AttemptError (Unit {0})
  unfolding read_reply
  attempt_socket limit action datagram check connected sent reads = do
    refuse_if (not connected) connection_failed
    refuse_if (not (is_empty check.send) && not sent) send_failed
    if is_empty action.expect.contains && is_empty action.expect.regexp
        then ok tt
        else read_reply limit datagram action.expect [] reads
