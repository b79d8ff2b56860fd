-- ===== src/Config/Validation/Meaning.antt =====
-- What `validate` accepts, one part after the other and as a whole.
use ooth.Prelude.{
  ℕ, ◌*◌, ◌≤◌, ◌≡◌, ◌≢◌, ◌↔◌, ◌⊎◌, inl, inr, refl, sym, ◌∙◌, Bool, true, false, ◌||◌, Option, none,
  some, List, [], ◌∷◌, ◌++◌, arith, ltb, ◌==◌, In, ok, refuse_if, err-ne-ok, if◌then◌else◌, ||-iff,
}
use mathlib.Core.Bool.{false≢true}
use mathlib.Core.Option.{none-ne-some}
use mathlib.Core.Path.{subst}
use ooth.Prelude.Signed.{ℤ, pos, negsuc, ltb_ℤ}
use ooth.Prelude.Texts.{Text, codes, text_eq_iff, atoi, cut_text, after_prefix}
use ooth.Schedule.Times.{Duration}
use ooth.Config.App.{App, one_percent}
use ooth.Config.Validation.{
  invalid_handoff, handoff_is_for_linux, invalid_variable, Checked, named_handoffs, check_fd,
  check_handoff, bad_target, check_ready, check_limits, cuts_a_variable, bad_variable, check_env,
  validate,
}
use ooth.Config.Validation.Refusals.{
  Passes, refuse_if_iff, >>-iff, ||-false_iff, not_iff, false_iff, is_empty-false_iff, ==-false_iff,
  ltb_ℤ-zero_iff, leb_ℤ-zero_iff, ltb-false_iff, starts_with_iff, any-false_iff, cut_text-eq,
}
use ooth.Config.Validation.Words.{
  HasSchedule, HasIdentity, HasCommand, HasHandoff, HasReady, HasLimits, IsVariable, HasEnv,
}
use ooth.Config.Validation.Service.{
  check_schedule_iff, check_identity_iff, check_command_iff, contains_iff,
}

check_fd_iff :
    (goos : Text) (read : Option ℤ)
    → Passes (check_fd goos read)
      ↔ ((fd : ℕ) × (read ≡ some (pos fd)) × (3 ≤ fd) × (fd ≤ 1024) × (goos ≡ codes "linux"))
unfolding check_fd
check_fd_iff goos none = (λ h. absurd (err-ne-ok h), λ h. absurd (none-ne-some _ (h.1)))
check_fd_iff goos (some (negsuc n)) = (λ h. absurd (err-ne-ok h), λ h. cc (h.1))
check_fd_iff goos (some (pos fd)) =
    let parts =
      >>-iff (refuse_if (ltb fd 3 || ltb 1024 fd) invalid_handoff) _
        (refuse_if_iff _ _ (||-false_iff _ _ (ltb-false_iff fd 3) (ltb-false_iff 1024 fd)))
        (refuse_if_iff _ handoff_is_for_linux (not_iff _ (text_eq_iff goos (codes "linux")))) in
    (
      λ h. let p = parts.0 h in (fd, refl, p.0.0, p.0.1, p.1),
      λ h.
          let same : h.0 ≡ fd = cc (h.1) in
          parts.1 ((subst (λ n. (3 ≤ n) × (n ≤ 1024)) same (h.2, h.3)), h.4),
    )

Passes-if_iff {ℓ κ} :
    {P : Type ℓ} {Q : Type κ} (b : Bool) (r : Checked)
    → (b ≡ true) ↔ P
    → Passes r ↔ Q
    → Passes (if b then ok tt else r) ↔ (P ⊎ Q)
Passes-if_iff true r f g = (λ h. inl (f.0 refl), λ p. refl)
Passes-if_iff false r f g =
    (λ h. inr (g.0 h), elim [ inl p ↦ absurd (false≢true (f.1 p)) | inr q ↦ g.1 q ])

check_handoff_iff :
    (goos : Text) (app : App) → Passes (check_handoff goos app) ↔ HasHandoff goos app
unfolding check_handoff
check_handoff_iff goos app =
    Passes-if_iff _ _ (contains_iff named_handoffs app.socket_handoff)
      (check_fd_iff goos (atoi app.socket_handoff))

bad_target_iff :
    (found : Option (Text × Text))
    → (bad_target found ≡ false) ↔ (
        (network : Text) × (address : Text) × (found ≡ some (network, address))
        × (address ≢ [])
        × ((network ≡ codes "tcp") ⊎ (network ≡ codes "unix")))
unfolding bad_target
bad_target_iff none = (λ h. absurd (false≢true (sym h)), λ h. absurd (none-ne-some _ h.2))
bad_target_iff (some (network, address)) =
    let parts = ||-false_iff _ _ (is_empty-false_iff address) (
      not_iff _
        (||-iff _ _ (text_eq_iff network (codes "tcp")) (text_eq_iff network (codes "unix")))) in
    (
      λ h. let p = parts.0 h in (network, address, refl, p.0, p.1),
      λ h.
          let same_network : network ≡ h.0 = cc (h.2) in
          let same_address : address ≡ h.1 = cc (h.2) in
          parts.1 (
            λ e. h.3 (sym same_address ∙ e),
            subst (λ n. (n ≡ codes "tcp") ⊎ (n ≡ codes "unix")) (sym same_network) h.4,
          ),
    )

target_iff :
    (ready : Text)
    → (bad_target (cut_text (codes "://") ready) ≡ false) ↔ (
        (address : Text) × (address ≢ [])
        × ((ready ≡ codes "tcp://" ++ address) ⊎ (ready ≡ codes "unix://" ++ address)))
unfolding cut_text after_prefix
target_iff ready = (
  λ h.
      let (network, address, found, filled, kind) =
        (bad_target_iff (cut_text (codes "://") ready)).0 h in
      let whole = cut_text-eq (codes "://") ready network address found in
      let Whole = λ (n : Text). ready ≡ n ++ (codes "://" ++ address) in
      (
        address,
        filled,
        elim kind [ inl e ↦ inl (subst Whole e whole) | inr e ↦ inr (subst Whole e whole) ],
      ),
  λ (address, filled, kind). (bad_target_iff (cut_text (codes "://") ready)).1 (elim kind [
    | inl e ↦ (codes "tcp", address, rw e refl, filled, inl refl)
    | inr e ↦ (codes "unix", address, rw e refl, filled, inr refl)
  ]),
)

check_ready_iff : (app : App) → Passes (check_ready app) ↔ HasReady app
unfolding check_ready
check_ready_iff app =
    Passes-if_iff _ _
      (||-iff _ _ (text_eq_iff app.ready (codes "event")) (text_eq_iff app.ready (codes "started")))
      (refuse_if_iff _ _ (target_iff app.ready))

workers_iff :
    (least most slots : ℤ)
    → ((ltb_ℤ least (pos 0) || ltb_ℤ most (pos 1) || ltb_ℤ most least || ltb_ℤ slots (pos 1))
        ≡ false)
      ↔ ((l m s : ℕ) × (least ≡ pos l)
          × (most ≡ pos m)
          × (slots ≡ pos s)
          × (l ≤ m)
          × (1 ≤ m)
          × (1 ≤ s))
workers_iff (pos l) (pos m) (pos s) =
    (λ h. (l, m, s, refl, refl, refl, ground arith, ground arith, ground arith), λ p. ground arith)
workers_iff (pos l) (pos m) (negsuc x) = (λ h. absurd (ground arith), λ p. cc (p.5))
workers_iff (pos l) (negsuc x) slots = (λ h. absurd (ground arith), λ p. cc (p.4))
workers_iff (negsuc x) most slots = (λ h. absurd (ground arith), λ p. cc (p.3))

check_limits_iff : (app : App) → Passes (check_limits app) ↔ HasLimits app
unfolding check_limits
check_limits_iff app =
    >>-iff _ _ (refuse_if_iff _ _ (workers_iff app.min_workers app.max_workers app.concurrency)) (
      >>-iff _ _
        (refuse_if_iff _ _ (
          ||-false_iff _ _
            (||-false_iff _ _
              (||-false_iff _ _
                (||-false_iff _ _
                  (||-false_iff _ _ (leb_ℤ-zero_iff app.idle_timeout)
                    (leb_ℤ-zero_iff app.start_timeout))
                  (leb_ℤ-zero_iff app.stop_timeout))
                (leb_ℤ-zero_iff app.scale_window))
              (ltb_ℤ-zero_iff app.scale_delay))
            (ltb_ℤ-zero_iff app.request_timeout)))
        (refuse_if_iff _ _ (
          ||-false_iff _ _ (==-false_iff app.scale_at 0)
            (ltb-false_iff (100 * one_percent) app.scale_at))))

bad_variable_iff : (key value : Text) → (bad_variable key value ≡ false) ↔ IsVariable (key, value)
unfolding bad_variable
bad_variable_iff key value =
    ||-false_iff _ _
      (||-false_iff _ _
        (||-false_iff _ _ (is_empty-false_iff key) (
          any-false_iff cuts_a_variable key
            (λ c. ||-false_iff _ _ (==-false_iff c b'=') (==-false_iff c 0))))
        (any-false_iff (λ c. c == 0) value (λ c. ==-false_iff c 0)))
      (false_iff _ (starts_with_iff (codes "OOTH_") key))

check_env_iff :
    (env : List (Text × Text))
    → Passes (check_env env) ↔ ((variable : Text × Text) → In variable env → IsVariable variable)
unfolding check_env
check_env_iff [] = (λ h variable i. absurd i, λ h. refl)
check_env_iff ((key, value) ∷ rest) =
    let parts =
      >>-iff _ _ (refuse_if_iff _ (invalid_variable key) (bad_variable_iff key value))
        (check_env_iff rest) in
    (
      λ h variable i. elim i [
        | inl e ↦ subst IsVariable (sym e) (parts.0 h).0
        | inr j ↦ (parts.0 h).1 variable j
      ],
      λ h. parts.1 (h (key, value) (inl refl), λ variable j. h variable (inr j)),
    )

-- An app is valid.
pub record IsValid (goos : Text) (parse_duration : Text → Option Duration) (app : App)
    : Type 0 where
  pub schedule : HasSchedule parse_duration app
  pub identity : HasIdentity goos app
  pub command : HasCommand app
  pub handoff : HasHandoff goos app
  pub ready : HasReady app
  pub limits : HasLimits app
  pub env : HasEnv app

-- `validate` accepts exactly the valid apps.
pub validate-IsValid :
    (goos : Text) (parse_duration : Text → Option Duration) (app : App)
    → Passes (validate goos parse_duration app) ↔ IsValid goos parse_duration app
unfolding validate
validate-IsValid goos parse_duration app =
    let parts = >>-iff _ _ (check_schedule_iff parse_duration app) (
      >>-iff _ _ (check_identity_iff goos app) (
        >>-iff _ _ (check_command_iff app) (
          >>-iff _ _ (check_handoff_iff goos app) (
            >>-iff _ _ (check_ready_iff app)
              (>>-iff _ _ (check_limits_iff app) (check_env_iff app.env)))))) in
    (
      λ h.
          let p = parts.0 h in
          record {
            schedule = p.0;
            identity = p.1.0;
            command = p.1.1.0;
            handoff = p.1.1.1.0;
            ready = p.1.1.1.1.0;
            limits = p.1.1.1.1.1.0;
            env = p.1.1.1.1.1.1;
          },
      λ v.
          parts.1
            (v.schedule, (v.identity, (v.command, (v.handoff, (v.ready, (v.limits, v.env)))))),
    )
