-- ===== src/Execution/Samples.antt =====
-- Executions that succeed at their second attempt, and the attempts themselves, at concrete inputs.
use ooth.Prelude.{
  ℕ, ◌+◌, ◌*◌, ◌≤◌, ◌≡◌, ◌≢◌, ◌↔◌, refl, Bool, true, false, none, Result, List, [], ◌∷◌, ltb, ◌==◌,
  length, take, ok, err, if◌then◌else◌,
}
use ooth.Prelude.Signed.{pos}
use ooth.Prelude.Texts.{Text, codes, contains_text, starts_with}
use ooth.Schedule.Times.{second}
use ooth.Config.App.{Action}
use ooth.Config.Templates.{
  TemplateError, expand_action, expand_texts, expand_map, expand_http, expand_check,
}
use ooth.Config.Validation.Refusals.{Passes}
use ooth.Execution.{no_output, write, write_all, matches, Trials, execute}
use ooth.Execution.Output.{join, write_all-join}
use ooth.Execution.Retry.{Succeeds, execute-Succeeds, execute_bounded}
use ooth.Execution.Attempt.{
  AttemptError, request_failed, invalid_request, expired, CommandRun, expected_codes,
  attempt_command, attempt_socket, read_reply,
}
use ooth.Execution.Attempt.Replies.{
  IsExpected, IsExpectedCode, first_bytes, attempt_command-IsExpected, attempt_socket-IsExpected,
}

abbrev second_try : Trials AttemptError
second_try = record {
  expired = λ n. false;
  outcome = λ n. if n == 1 then ok tt else err request_failed;
  interrupted = λ n. false;
  cancelled = expired;
}

abbrev expects_ready : Action
expects_ready = record {
  command = codes "probe" ∷ [];
  env = [];
  directory = [];
  http = none;
  tcp = none;
  udp = none;
  expect = record { exit_codes = []; status = []; contains = codes "ready"; regexp = [] };
  timeout = pos (3 * second);
  retries = pos 2;
  backoff = pos 0;
}

abbrev unexpanded : Text → Result TemplateError Text
unexpanded s = ok s

abbrev invalid : TemplateError → AttemptError
invalid e = invalid_request

second_succeeds : (execute (λ a. second_try) invalid unexpanded expects_ready).result ≡ ok tt
unfolding execute expand_action expand_texts expand_map expand_http expand_check
second_succeeds = refl

execute-Succeeds_example :
    ((execute (λ a. second_try) invalid unexpanded expects_ready).result ≡ ok tt) ↔ (
      (expanded : Action) × (expand_action unexpanded expects_ready ≡ ok expanded)
      × ((n : ℕ) × (n ≤ 2) × Succeeds second_try 0 n))
execute-Succeeds_example =
    execute-Succeeds (λ a. second_try) invalid unexpanded expects_ready 2 refl

execute_bounded_example :
    ((execute (λ a. second_try) invalid unexpanded expects_ready).attempts ≤ 2 + 1)
    × ((execute (λ a. second_try) invalid unexpanded expects_ready).paused ≤ 2 * (30 * second))
execute_bounded_example = execute_bounded (λ a. second_try) invalid unexpanded expects_ready 2 refl

abbrev chunks : List Text
chunks = codes "read" ∷ codes "y\n" ∷ []

write_all-join_example :
    ((write_all 5 no_output chunks).written ≡ take 5 (join chunks))
    × ((write_all 5 no_output chunks).overflow ≡ ltb 5 (length (join chunks)))
write_all-join_example = write_all-join 5 chunks

abbrev no_regexp : Text → Text → Bool
no_regexp pattern reply = false

abbrev good_run : CommandRun
good_run = record {
  expanded = true;
  identified = true;
  started = true;
  cleaned = true;
  in_time = true;
  completed = true;
  exit_code = pos 0;
  output = record { written = codes "ready\n"; overflow = false };
}

good-Passes : Passes (attempt_command no_regexp expects_ready good_run)
unfolding attempt_command expected_codes matches contains_text starts_with
good-Passes = refl

good_output : good_run.output ≡ write_all 64 no_output chunks
unfolding write_all write
good_output = refl

attempt_command-IsExpected_example : Passes (attempt_command no_regexp expects_ready good_run) ↔ (
    (good_run.expanded ≡ true)
    × ((good_run.identified ≡ true)
        × ((good_run.started ≡ true)
            × ((good_run.cleaned ≡ true)
                × ((good_run.in_time ≡ true)
                    × ((good_run.completed ≡ true)
                        × (IsExpectedCode expects_ready.expect.exit_codes good_run.exit_code
                            × IsExpected no_regexp 64 expects_ready.expect (join chunks))))))))
attempt_command-IsExpected_example =
    attempt_command-IsExpected no_regexp 64 expects_ready good_run chunks good_output

abbrev reads : List (Text × Bool)
reads = (codes "rea", false) ∷ (codes "dy", false) ∷ []

answered : Passes (
    attempt_socket no_regexp 64 expects_ready false
      (record { address = codes "h:1"; send = [] })
      true
      false
      reads)
unfolding attempt_socket read_reply matches contains_text starts_with
answered = refl

attempt_socket-IsExpected_example :
    (true ≡ true)
    × (◌≢◌ {A = Text} [] [] → false ≡ true)
    × ((n : ℕ) × IsExpected no_regexp 64 expects_ready.expect (first_bytes no_regexp 64 n reads)
        × (false ≡ true → n ≤ 1))
attempt_socket-IsExpected_example =
    attempt_socket-IsExpected no_regexp 64 expects_ready false
      (record { address = codes "h:1"; send = [] }) true false reads refl answered
