-- ===== src/Execution.antt =====
-- The execution of an action: `actionOutput`, `Expectation.matches`, `Action.execute` and the verdicts
-- of `Action.attempt`. What the system does in an attempt, and the regular expressions, are
-- parameters.
pub mod Output
pub mod Retry
pub mod Attempt
pub mod Samples
use ooth.Prelude.{
  ℕ, zero, suc, ◌+◌, ◌-◌, ◌*◌, ◌^◌, min, Bool, true, false, not, ◌&&◌, ◌||◌, Option, none, some,
  List, [], ◌∷◌, ◌++◌, if◌then◌else◌, is_empty, ltb, length, take, Result, ok, err, ◌>>=◌, ◌>>◌,
  refuse_if,
}
use ooth.Prelude.Signed.{ℤ, pos, negsuc}
use ooth.Prelude.Texts.{Text, contains_text}
use ooth.Schedule.Times.{Duration, second}
use ooth.Config.App.{Action, Expectation}
use ooth.Config.Templates.{TemplateError, expand_action}

pub record ActionOutput : Type 0 where
  pub written : Text
  pub overflow : Bool

abbrev pub action_output_limit : ℕ
action_output_limit = 1_048_576

abbrev pub no_output : ActionOutput
no_output = record { written = []; overflow = false }

-- `actionOutput.Write`, with the limit as an argument.
unfoldable pub write : ℕ → ActionOutput → Text → ActionOutput
write limit output chunk =
    let count = min (length chunk) (limit - length output.written) in
    record {
      written = output.written ++ take count chunk;
      overflow = output.overflow || ltb count (length chunk);
    }

unfoldable pub write_all : ℕ → ActionOutput → List Text → ActionOutput
write_all limit output [] = output
write_all limit output (chunk ∷ rest) = write_all limit (write limit output chunk) rest

-- `matched` is `regexp.Match`, with `false` for an error.
unfoldable pub matches : (Text → Text → Bool) → Expectation → Text → Bool
matches matched expect reply =
    contains_text expect.contains reply && (is_empty expect.regexp || matched expect.regexp reply)

-- The pause after an attempt, in nanoseconds; a backoff is not negative.
unfoldable pub pause : ℕ → ℕ → ℕ
pause backoff attempt = min (min backoff (30 * second) * 2 ^ min attempt 10) (30 * second)

-- What an execution meets: whether its context is done before an attempt, what the attempt returns, and
-- whether the context ends the pause after it.
pub record Trials (E : Type 0) : Type 0 where
  pub expired : ℕ → Bool
  pub outcome : ℕ → Result E (Unit {0})
  pub interrupted : ℕ → Bool
  pub cancelled : E

-- The result, how many attempts were made, and for how long they were held back.
pub record Execution (E : Type 0) : Type 0 where
  pub result : Result E (Unit {0})
  pub attempts : ℕ
  pub paused : ℕ

module _ {E : Type 0} (trials : Trials E) where
  -- An attempt that fails goes on with `rest`.
  unfoldable pub try_once : ℕ → ℕ → (E → Execution E) → Execution E
  try_once attempt paused rest =
      if trials.expired attempt
      then record { result = err trials.cancelled; attempts = attempt; paused = paused }
      else elim (trials.outcome attempt) [
        | ok done ↦ record { result = ok done; attempts = attempt + 1; paused = paused }
        | err e ↦ rest e
      ]

module _ {E : Type 0} (trials : Trials E) (backoff : ℕ) where
  -- The loop, where `left` is `action.Retries - attempt`.
  unfoldable pub try : ℕ → ℕ → ℕ → Execution E
  unfolding try_once
  try zero attempt paused =
      try_once trials attempt paused
        (λ e. record { result = err e; attempts = attempt + 1; paused = paused })
  try (suc left) attempt paused =
      let rest = try left (attempt + 1) (paused + pause backoff attempt) in
      try_once trials attempt paused (λ e.
        if trials.interrupted attempt
        then record { result = err trials.cancelled; attempts = attempt + 1; paused = paused }
        else rest)

  -- A negative number of retries makes no attempt, and reports no error.
  unfoldable pub run_attempts : ℤ → Execution E
  unfolding try
  run_attempts (pos retries) = try retries 0 0
  run_attempts (negsuc n) = record { result = ok tt; attempts = 0; paused = 0 }

-- A timer of a negative duration fires at once.
abbrev pub nanoseconds : Duration → ℕ
nanoseconds (pos n) = n
nanoseconds (negsuc n) = 0

module _ {E : Type 0} (trials : Action → Trials E) (invalid : TemplateError → E) where
  -- The attempts are those of the expanded action, as often as the action itself says.
  unfoldable pub run_expanded : Duration → ℤ → Result TemplateError Action → Execution E
  unfolding run_attempts
  run_expanded backoff retries (err e) = record {
    result = err (invalid e);
    attempts = 0;
    paused = 0;
  }
  run_expanded backoff retries (ok expanded) =
      run_attempts (trials expanded) (nanoseconds backoff) retries

  -- `expand` is the expansion of one text.
  unfoldable pub execute : (Text → Result TemplateError Text) → Action → Execution E
  unfolding run_expanded
  execute expand action = run_expanded action.backoff action.retries (expand_action expand action)
