-- ===== src/Execution/Attempt/Replies.antt =====
-- When an attempt succeeds.
use ooth.Prelude.{
  ℕ, zero, suc, ◌≤◌, ◌≡◌, ◌≢◌, ◌↔◌, inl, inr, refl, sym, ◌∙◌, Bool, true, false, not, ◌&&◌, ◌||◌,
  List, [], ◌∷◌, ◌++◌, is_empty, ltb, length, take, arith, Bool-cases, ◌>>◌, refuse_if, err-ne-ok,
  not-false, In, ◌⊎◌,
}
use mathlib.Core.Bool.{false≢true}
use mathlib.Core.Path.{subst}
use ooth.Prelude.Signed.{ℤ, pos, negsuc, eq_ℤ}
use mathlib.Core.List.{append_assoc, append-nil}
use ooth.Prelude.Texts.{Text, starts_with, contains_text}
use ooth.Config.App.{Action, Expectation, SocketCheck}
use ooth.Config.Validation.Refusals.{
  Passes, starts_with_iff, is_empty-false_iff, refuse_if_iff, >>-iff, same_iff, not_iff,
  &&-false_iff, filled_iff, ltb-false_iff,
}
use ooth.Execution.{ActionOutput, no_output, write_all, matches}
use ooth.Execution.Output.{join, write_all-join, take-all}
use ooth.Execution.Attempt.{
  CommandRun, contains_code, expected_codes, attempt_command, read_reply, attempt_socket,
  expectation_failed, output_too_long, connection_failed, send_failed,
}

-- A text that stands somewhere in another.
abbrev pub Occurs : Text → Text → Type 0
Occurs part s = (before : Text) × (after : Text) × (s ≡ before ++ (part ++ after))

starts_with-contains : (part s : Text) → starts_with part s ≡ true → contains_text part s ≡ true
unfolding contains_text
starts_with-contains part [] h = h
starts_with-contains part (c ∷ s) h = ground arith

contains-found : (part before after : Text) → contains_text part (before ++ (part ++ after)) ≡ true
unfolding contains_text
contains-found part [] after =
    starts_with-contains part (part ++ after)
      ((starts_with_iff part (part ++ after)).1 (after, refl))
contains-found part (c ∷ before) after = ground (arith, contains-found part before after)

contains-Occurs : (part s : Text) → contains_text part s ≡ true → Occurs part s
unfolding contains_text
contains-Occurs part [] h = let (rest, e) = (starts_with_iff part []).0 h in ([], rest, e)
contains-Occurs part (c ∷ s) h = elim (Bool-cases (starts_with part (c ∷ s))) [
  | inl here ↦ let (rest, e) = (starts_with_iff part (c ∷ s)).0 here in ([], rest, e)
  | inr later ↦
      let (before, after, e) = contains-Occurs part s (rw (contains_text, later) at h) in
      (c ∷ before, after, rw (← e) refl)
]

contains_text_iff : (part s : Text) → (contains_text part s ≡ true) ↔ Occurs part s
contains_text_iff part s = (
  contains-Occurs part s,
  λ (before, after, e).
      subst (λ r. contains_text part r ≡ true) (sym e) (contains-found part before after),
)

-- The exit codes that are expected: those that are given or, if none are, zero.
abbrev pub IsExpectedCode : List ℤ → ℤ → Type 0
IsExpectedCode given code = In code given ⊎ ((given ≡ []) × (code ≡ pos 0))

eq_ℤ_iff : (a b : ℤ) → (eq_ℤ a b ≡ true) ↔ (a ≡ b)
eq_ℤ_iff (pos a) (pos b) = (λ h. ground arith, λ e. ground arith)
eq_ℤ_iff (pos a) (negsuc b) = (λ h. absurd (false≢true h), λ e. absurd (cc e))
eq_ℤ_iff (negsuc a) (pos b) = (λ h. absurd (false≢true h), λ e. absurd (cc e))
eq_ℤ_iff (negsuc a) (negsuc b) = (λ h. ground arith, λ e. ground arith)

contains_code_iff : (l : List ℤ) (code : ℤ) → (contains_code l code ≡ true) ↔ In code l
contains_code_iff [] code = (λ h. absurd (false≢true h), λ i. absurd i)
contains_code_iff (c ∷ l) code = (
  λ h. elim (Bool-cases (eq_ℤ code c)) [
    | inl same ↦ inl ((eq_ℤ_iff code c).0 same)
    | inr other ↦ inr ((contains_code_iff l code).0 (rw other at h))
  ],
  λ i. elim (Bool-cases (eq_ℤ code c)) [
    | inl same ↦ rw same refl
    | inr other ↦ elim i [
      | inl e ↦ absurd (false≢true (sym other ∙ (eq_ℤ_iff code c).1 e))
      | inr j ↦ rw other ((contains_code_iff l code).1 j)
    ]
  ],
)

expected_iff :
    (given : List ℤ) (code : ℤ)
    → (contains_code (expected_codes given) code ≡ true) ↔ IsExpectedCode given code
unfolding expected_codes
expected_iff [] code = (
  λ h. elim ((contains_code_iff (pos 0 ∷ []) code).0 h) [
    | inl e ↦ inr (refl, e)
    | inr j ↦ absurd j
  ],
  λ i. elim i [
    | inl j ↦ absurd j
    | inr (blank, e) ↦ (contains_code_iff (pos 0 ∷ []) code).1 (inl e)
  ],
)
expected_iff (c ∷ l) code = (
  λ h. inl ((contains_code_iff (c ∷ l) code).0 h),
  λ i. elim i [ inl j ↦ (contains_code_iff (c ∷ l) code).1 j | inr (blank, e) ↦ absurd (cc blank) ],
)

module _ (matched : Text → Text → Bool) (limit : ℕ) where
  -- What a reply must be, whole: not too long, with the text that is asked for in it, and matched by
  -- the regular expression, if there is one.
  abbrev pub IsExpected : Expectation → Text → Type 0
  IsExpected expect reply =
      (length reply ≤ limit)
      × (Occurs expect.contains reply × (expect.regexp ≢ [] → matched expect.regexp reply ≡ true))

  matches_iff :
      (expect : Expectation) (reply : Text)
      → (matches matched expect reply ≡ true)
        ↔ (Occurs expect.contains reply × (expect.regexp ≢ [] → matched expect.regexp reply ≡ true))
  unfolding matches
  matches_iff expect reply = (
    λ h. (
      (contains_text_iff expect.contains reply).0 (ground arith),
      λ given. let filled = (is_empty-false_iff expect.regexp).1 given in ground arith,
    ),
    λ (found, met).
        let here = (contains_text_iff expect.contains reply).1 found in
        elim (Bool-cases (is_empty expect.regexp)) [
          | inl blank ↦ ground arith
          | inr filled ↦
              let yes_it_is = met ((is_empty-false_iff expect.regexp).0 filled) in ground arith
        ],
  )

  take_whole_iff :
      (action : Action) (chunks : List Text)
      → ((ltb limit (length (join chunks)) ≡ false)
          × (not (matches matched action.expect (take limit (join chunks))) ≡ false))
        ↔ IsExpected action.expect (join chunks)
  take_whole_iff action chunks = (
    λ h.
        let short = (ltb-false_iff limit (length (join chunks))).0 h.0 in
        (
          short,
          (matches_iff action.expect (join chunks)).0
              (rw (← (take-all limit (join chunks) short)) (not-false _ h.1)),
        ),
    λ h. (
      (ltb-false_iff limit (length (join chunks))).1 h.0,
      rw (take-all limit (join chunks) h.0, (matches_iff action.expect (join chunks)).1 h.1) refl,
    ),
  )

  output_iff :
      (action : Action) (output : ActionOutput) (chunks : List Text)
      → output.written ≡ take limit (join chunks)
      → output.overflow ≡ ltb limit (length (join chunks))
      → Passes (
          refuse_if output.overflow output_too_long
          >> refuse_if (not (matches matched action.expect output.written)) expectation_failed)
        ↔ IsExpected action.expect (join chunks)
  output_iff action output chunks w o =
      let tests =
        >>-iff (refuse_if (ltb limit (length (join chunks))) output_too_long)
          (refuse_if (not (matches matched action.expect (take limit (join chunks))))
            expectation_failed)
          (refuse_if_iff _ _ (same_iff _ _)) (refuse_if_iff _ _ (same_iff _ _)) in
      let words = take_whole_iff action chunks in
      rw (w, o) (λ h. words.0 (tests.0 h), λ h. tests.1 (words.1 h))

  -- A command succeeds exactly when every step of its run does, in time, its exit code is one of the
  -- expected ones (zero, if none are given), and its whole output, however it was written, is no
  -- longer than the limit and meets the expectation.
  pub attempt_command-IsExpected :
      (action : Action) (run : CommandRun) (chunks : List Text)
      → run.output ≡ write_all limit no_output chunks
      → Passes (attempt_command matched action run) ↔ (
          (run.expanded ≡ true)
          × ((run.identified ≡ true)
              × ((run.started ≡ true)
                  × ((run.cleaned ≡ true)
                      × ((run.in_time ≡ true)
                          × ((run.completed ≡ true)
                              × (IsExpectedCode action.expect.exit_codes run.exit_code
                                  × IsExpected action.expect (join chunks))))))))
  unfolding attempt_command
  attempt_command-IsExpected action run chunks written =
      >>-iff _ _ (refuse_if_iff _ _ (not_iff _ (same_iff _ _))) (
        >>-iff _ _ (refuse_if_iff _ _ (not_iff _ (same_iff _ _))) (
          >>-iff _ _ (refuse_if_iff _ _ (not_iff _ (same_iff _ _))) (
            >>-iff _ _ (refuse_if_iff _ _ (not_iff _ (same_iff _ _))) (
              >>-iff _ _ (refuse_if_iff _ _ (not_iff _ (same_iff _ _))) (
                >>-iff _ _ (refuse_if_iff _ _ (not_iff _ (same_iff _ _))) (
                  >>-iff _ _
                    (refuse_if_iff _ _
                      (not_iff _ (expected_iff action.expect.exit_codes run.exit_code)))
                    (output_iff action run.output chunks
                      (rw written (write_all-join limit chunks).0)
                      (rw written (write_all-join limit chunks).1))))))))

  -- The bytes of the first n reads.
  abbrev pub first_bytes : ℕ → List (Text × Bool) → Text
  first_bytes zero reads = []
  first_bytes (suc n) [] = []
  first_bytes (suc n) ((chunk, failed) ∷ reads) = chunk ++ first_bytes n reads

  read_reply-first :
      (expect : Expectation) (datagram : Bool) (received : Text) (reads : List (Text × Bool))
      → length received ≤ limit
      → Passes (read_reply matched limit datagram expect received reads)
      → (n : ℕ) × IsExpected expect (received ++ first_bytes n reads) × (datagram ≡ true → n ≤ 1)
  unfolding read_reply
  read_reply-first expect datagram received [] short h =
      elim (Bool-cases (matches matched expect received)) [
        | inl met ↦ (
          0,
          rw (append-nil received) (short, (matches_iff expect received).0 met),
          λ e. omega arith,
        )
        | inr unmet ↦ absurd (err-ne-ok (rw (read_reply, unmet) at h))
      ]
  read_reply-first expect datagram received ((chunk, failed) ∷ reads) short h =
      elim (Bool-cases (ltb limit (length (received ++ chunk)))) [
        | inl long ↦ absurd (err-ne-ok (rw (read_reply, long) at h))
        | inr fits ↦
            let fitting = (ltb-false_iff limit (length (received ++ chunk))).0 fits in
            elim (Bool-cases (matches matched expect (received ++ chunk))) [
              | inl met ↦ (
                1,
                rw (append-nil chunk) (fitting, (matches_iff expect (received ++ chunk)).0 met),
                λ e. omega arith,
              )
              | inr unmet ↦ elim (Bool-cases (failed || datagram)) [
                | inl last ↦ absurd (err-ne-ok (rw (read_reply, fits, unmet, last) at h))
                | inr more ↦
                    let (n, found, few) =
                      read_reply-first expect datagram (received ++ chunk) reads fitting
                        (rw (read_reply, fits, unmet, more) at h) in
                    (
                      suc n,
                      rw (← (append_assoc received chunk (first_bytes n reads))) found,
                      λ e. absurd (false≢true (sym more ∙ ground (arith, e))),
                    )
              ]
            ]
      ]

  -- A check over TCP or UDP that expects a reply succeeds only after it connected and sent what it has
  -- to send, and only if the bytes of its first reads, for UDP of one read at most, meet the
  -- expectation and are no longer than the limit.
  pub attempt_socket-IsExpected :
      (action : Action) (datagram : Bool) (check : SocketCheck) (connected sent : Bool)
      (reads : List (Text × Bool))
      → (is_empty action.expect.contains && is_empty action.expect.regexp) ≡ false
      → Passes (attempt_socket matched limit action datagram check connected sent reads)
      → (connected ≡ true)
        × (check.send ≢ [] → sent ≡ true)
        × ((n : ℕ) × IsExpected action.expect (first_bytes n reads) × (datagram ≡ true → n ≤ 1))
  unfolding attempt_socket
  attempt_socket-IsExpected action datagram check connected sent reads wants h =
      let parts =
        >>-iff (refuse_if (not connected) connection_failed) _
          (refuse_if_iff _ _ (not_iff _ (same_iff _ _)))
          (>>-iff (refuse_if (not (is_empty check.send) && not sent) send_failed) _
            (refuse_if_iff _ _
              (&&-false_iff _ _ (filled_iff check.send) (not_iff _ (same_iff _ _))))
            (same_iff _ _)) in
      let (up, (delivered, replied)) = parts.0 h in
      (
        up,
        delivered,
        read_reply-first action.expect datagram [] reads (omega arith) (rw wants at replied),
      )
