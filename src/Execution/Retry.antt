-- ===== src/Execution/Retry.antt =====
-- The retries of `Action.execute`: when it succeeds, and how long it goes on.
use ooth.Prelude.{
  ℕ, zero, suc, ◌+◌, ◌*◌, ◌≤◌, ◌<◌, ◌≡◌, ◌↔◌, refl, sym, false, Bool-cases, Result, ok, err,
  err-ne-ok, ok_inj, arith, inl, inr, ◌⊎◌,
}
use native.Mathlib.Decide.{ℕ_discrete}
use mathlib.Core.Path.{subst}
use ooth.Prelude.Signed.{pos}
use ooth.Schedule.Times.{Duration, second}
use ooth.Prelude.Texts.{Text}
use ooth.Config.App.{Action}
use ooth.Config.Templates.{TemplateError, expand_action}
use ooth.Execution.{
  Trials, Execution, pause, try_once, try, run_attempts, nanoseconds, run_expanded, execute,
}

module _ {E : Type 0} (trials : Trials E) where
  -- An attempt is made, fails, and its pause is waited for.
  abbrev pub Fails : ℕ → Type 0
  Fails m =
      (trials.expired m ≡ false)
      × ((e : E) × (trials.outcome m ≡ err e))
      × (trials.interrupted m ≡ false)

  -- The attempt n is the first that succeeds, and is made.
  abbrev pub Succeeds : ℕ → ℕ → Type 0
  Succeeds first n =
      (trials.expired n ≡ false)
      × (trials.outcome n ≡ ok tt)
      × ((m : ℕ) → first ≤ m → m < n → Fails m)

  Result-cases : (r : Result E (Unit {0})) → (r ≡ ok tt) ⊎ ((e : E) × (r ≡ err e))
  Result-cases (ok tt) = inl refl
  Result-cases (err e) = inr (e, refl)

  try_once-ok :
      (attempt paused : ℕ) (rest : E → Execution E)
      → (try_once trials attempt paused rest).result ≡ ok tt
      → (trials.expired attempt ≡ false)
        × ((trials.outcome attempt ≡ ok tt)
            ⊎ ((e : E) × (trials.outcome attempt ≡ err e) × ((rest e).result ≡ ok tt)))
  unfolding try_once
  try_once-ok attempt paused rest h = elim (Bool-cases (trials.expired attempt)) [
    | inl late ↦
        let stuck : err trials.cancelled ≡ ok tt = rw (try_once, late) at h in
        absurd (err-ne-ok stuck)
    | inr timely ↦ elim (Result-cases (trials.outcome attempt)) [
      | inl done ↦ (timely, inl done)
      | inr (e, failed) ↦ (timely, inr (e, failed, rw (try_once, timely, failed) at h))
    ]
  ]

  module _ (backoff : ℕ) where
    try-Succeeds :
        (left attempt paused : ℕ)
        → (try trials backoff left attempt paused).result ≡ ok tt
        → (n : ℕ) × (attempt ≤ n) × (n ≤ attempt + left) × Succeeds attempt n
    unfolding try
    try-Succeeds zero attempt paused h =
        let (timely, split) = try_once-ok attempt paused _ h in
        elim split [
          | inl done ↦
              (attempt, omega arith, omega arith, (timely, done, λ m p q. absurd (omega arith)))
          | inr (e, failed, stuck) ↦ absurd (err-ne-ok stuck)
        ]
    try-Succeeds (suc left) attempt paused h =
        let (timely, split) = try_once-ok attempt paused _ h in
        elim split [
          | inl done ↦
              (attempt, omega arith, omega arith, (timely, done, λ m p q. absurd (omega arith)))
          | inr (e, failed, again) ↦ elim (Bool-cases (trials.interrupted attempt)) [
            | inl cut ↦ absurd (err-ne-ok (rw cut at again))
            | inr waited ↦
                let (n, low, high, (timely', done, before)) =
                  try-Succeeds left (attempt + 1) (paused + pause backoff attempt)
                    (rw waited at again) in
                (
                  n,
                  omega arith,
                  omega arith,
                  (
                    timely',
                    done,
                    λ m p q. elim (ℕ_discrete m attempt) [
                      | yes e' ↦ subst Fails (sym e') (timely, (e, failed), waited)
                      | no ne ↦ before m (omega arith) q
                    ],
                  ),
                )
          ]
        ]

    Succeeds-try :
        (left attempt paused n : ℕ)
        → attempt ≤ n
        → n ≤ attempt + left
        → Succeeds attempt n
        → (try trials backoff left attempt paused).result ≡ ok tt
    unfolding try try_once
    Succeeds-try zero attempt paused n low high s =
        let same : n ≡ attempt = omega arith in rw (← same, s.0, s.1) refl
    Succeeds-try (suc left) attempt paused n low high s = elim (ℕ_discrete n attempt) [
      | yes same ↦ rw (← same, s.0, s.1) refl
      | no later ↦
          let (timely, (e, failed), waited) = s.2 attempt (omega arith) (omega arith) in
          rw (timely, failed, waited)
            (Succeeds-try left (attempt + 1) (paused + pause backoff attempt) n (omega arith)
              (omega arith) (s.0, s.1, λ m p q. s.2 m (omega arith) q))
    ]

    pause-le : (attempt : ℕ) → pause backoff attempt ≤ 30 * second
    unfolding pause
    pause-le attempt = omega arith

    try-bounded :
        (left attempt paused : ℕ)
        → let done = try trials backoff left attempt paused in
          (done.attempts ≤ attempt + left + 1) × (done.paused ≤ paused + left * (30 * second))
    unfolding try try_once
    try-bounded zero attempt paused = elim (Bool-cases (trials.expired attempt)) [
      | inl late ↦ rw late (omega arith)
      | inr timely ↦ elim (Result-cases (trials.outcome attempt)) [
        | inl done ↦ rw (timely, done) (omega arith)
        | inr (e, failed) ↦ rw (timely, failed) (omega arith)
      ]
    ]
    try-bounded (suc left) attempt paused =
        let later = try-bounded left (attempt + 1) (paused + pause backoff attempt) in
        let short = pause-le attempt in
        elim (Bool-cases (trials.expired attempt)) [
          | inl late ↦ rw late (omega arith)
          | inr timely ↦ elim (Result-cases (trials.outcome attempt)) [
            | inl done ↦ rw (timely, done) (omega arith)
            | inr (e, failed) ↦ elim (Bool-cases (trials.interrupted attempt)) [
              | inl cut ↦ rw (timely, failed, cut) (omega arith)
              | inr waited ↦ rw (timely, failed, waited) (omega arith)
            ]
          ]
        ]

module _ {E : Type 0} (trials : Action → Trials E) (invalid : TemplateError → E) where
  run_expanded-Succeeds :
      (backoff : Duration) (retries : ℕ) (expansion : Result TemplateError Action)
      → ((run_expanded trials invalid backoff (pos retries) expansion).result ≡ ok tt) ↔ (
          (expanded : Action) × (expansion ≡ ok expanded)
          × ((n : ℕ) × (n ≤ retries) × Succeeds (trials expanded) 0 n))
  unfolding run_expanded run_attempts
  run_expanded-Succeeds backoff retries (err e) =
      (λ h. absurd (err-ne-ok h), λ (expanded, ready, s). absurd (err-ne-ok ready))
  run_expanded-Succeeds backoff retries (ok expanded) = (
    λ h.
        let (n, low, high, s) =
          try-Succeeds (trials expanded) (nanoseconds backoff) retries 0 0 h in
        (expanded, refl, (n, omega arith, s)),
    λ (other, same, (n, high, s)).
        Succeeds-try (trials expanded) (nanoseconds backoff) retries 0 0 n (omega arith)
          (omega arith) (subst (λ a. Succeeds (trials a) 0 n) (sym (ok_inj same)) s),
  )

  run_expanded_bounded :
      (backoff : Duration) (retries : ℕ) (expansion : Result TemplateError Action)
      → let done = run_expanded trials invalid backoff (pos retries) expansion in
        (done.attempts ≤ retries + 1) × (done.paused ≤ retries * (30 * second))
  unfolding run_expanded run_attempts
  run_expanded_bounded backoff retries (err e) = omega arith
  run_expanded_bounded backoff retries (ok expanded) =
      omega (arith, try-bounded (trials expanded) (nanoseconds backoff) retries 0 0)

  module _ (expand : Text → Result TemplateError Text) (action : Action) (retries : ℕ)
      (bound : action.retries ≡ pos retries) where
    -- An action whose retries are not negative succeeds exactly when it can be expanded and one of
    -- the attempts of its expansion, the first of which has the number 0 and the last the number of
    -- the retries, is made and succeeds, after all earlier ones were made and failed, and their
    -- pauses were waited for.
    pub execute-Succeeds : ((execute trials invalid expand action).result ≡ ok tt) ↔ (
        (expanded : Action) × (expand_action expand action ≡ ok expanded)
        × ((n : ℕ) × (n ≤ retries) × Succeeds (trials expanded) 0 n))
    unfolding execute
    execute-Succeeds =
        subst
          (λ r.
            ((run_expanded trials invalid action.backoff r (expand_action expand action)).result
              ≡ ok tt)
            ↔ ((expanded : Action) × (expand_action expand action ≡ ok expanded)
                × ((n : ℕ) × (n ≤ retries) × Succeeds (trials expanded) 0 n)))
          (sym bound) (run_expanded-Succeeds action.backoff retries (expand_action expand action))

    -- An execution makes at most one attempt more than it has retries, and its pauses together are
    -- at most half a minute for each retry.
    pub execute_bounded :
        let done = execute trials invalid expand action in
        (done.attempts ≤ retries + 1) × (done.paused ≤ retries * (30 * second))
    unfolding execute
    execute_bounded =
        subst
          (λ r.
            let done = run_expanded trials invalid action.backoff r (expand_action expand action) in
            (done.attempts ≤ retries + 1) × (done.paused ≤ retries * (30 * second)))
          (sym bound) (run_expanded_bounded action.backoff retries (expand_action expand action))
