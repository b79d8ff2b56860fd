-- ===== src/Config/Validation/Service.antt =====
-- The checks of the schedule, the identity, the command and the socket, and what they mean.
use ooth.Prelude.{
  ℕ, ◌≤◌, ◌≡◌, ◌≢◌, ◌↔◌, refl, sym, ◌∙◌, true, false, not, Option, none, some, List, [], ◌∷◌,
  some_inj, is_empty, In, Result, ok, err, err-ne-ok, if◌then◌else◌, ||-iff,
}
use mathlib.Core.Bool.{false≢true}
use mathlib.Core.Option.{none-ne-some}
use mathlib.Core.Path.{subst}
use ooth.Prelude.Texts.{Text, codes, text_eq_iff, contains}
use ooth.Schedule.Times.{Duration}
use ooth.Schedule.Plan.{ScheduleError, Plan, parse_schedule}
use ooth.Config.App.{App}
use ooth.Config.Validation.{
  schedule_checked, check_schedule, bad_mode, check_identity, networks, has_no_program,
  check_command,
}
use ooth.Config.Validation.Refusals.{
  Passes, refuse_if_iff, >>-iff, ||-false_iff, &&-false_iff, not_iff, same_iff, is_empty_iff,
  is_empty-false_iff, filled_iff, is_some-false_iff, is_some_iff, ltb_ℤ-zero_iff, is_zero_iff,
  ltb-false_iff,
}
use ooth.Config.Validation.Words.{HasSchedule, HasIdentity, HasCommand}

schedule_checked_iff :
    (r : Result ScheduleError Plan) → Passes (schedule_checked r) ↔ ((plan : Plan) × (r ≡ ok plan))
unfolding schedule_checked
schedule_checked_iff (ok plan) = (λ h. (plan, refl), λ h. refl)
schedule_checked_iff (err e) = (λ h. absurd (err-ne-ok h), λ h. absurd (err-ne-ok h.1))

pub check_schedule_iff :
    (parse_duration : Text → Option Duration) (app : App)
    → Passes (check_schedule parse_duration app) ↔ HasSchedule parse_duration app
unfolding check_schedule
check_schedule_iff parse_duration app =
    >>-iff _ _ (schedule_checked_iff (parse_schedule parse_duration app.schedule)) (
      >>-iff _ _
        (refuse_if_iff _ _ (
          &&-false_iff _ _ (filled_iff app.schedule) (
            ||-false_iff _ _
              (||-false_iff _ _ (not_iff _ (is_empty_iff app.listen.network)) (same_iff _ _))
              (not_iff _ (is_zero_iff app.min_workers)))))
        (>>-iff _ _
          (refuse_if_iff _ _
            (&&-false_iff app.overlap _ (same_iff _ _) (is_empty-false_iff app.schedule)))
          (refuse_if_iff _ _ (ltb_ℤ-zero_iff app.max_exec_time))))

bad_mode_iff :
    (goos network : Text) (socket_mode : Option ℕ)
    → (bad_mode goos network socket_mode ≡ false) ↔ (
        (mode : ℕ)
        → socket_mode ≡ some mode
        → ((goos ≡ codes "linux") × (network ≡ codes "unix")) × (mode ≤ 0o777))
unfolding bad_mode
bad_mode_iff goos network none = (λ h mode e. absurd (none-ne-some _ e), λ h. refl)
bad_mode_iff goos network (some mode) =
    let parts =
      ||-false_iff _ _
        (||-false_iff _ _ (not_iff _ (text_eq_iff goos (codes "linux")))
          (not_iff _ (text_eq_iff network (codes "unix"))))
        (ltb-false_iff 0o777 mode) in
    (
      λ h mode' e.
          subst (λ m. ((goos ≡ codes "linux") × (network ≡ codes "unix")) × (m ≤ 0o777))
            (some_inj e) (parts.0 h),
      λ h. parts.1 (h mode refl),
    )

pub check_identity_iff :
    (goos : Text) (app : App) → Passes (check_identity goos app) ↔ HasIdentity goos app
unfolding check_identity
check_identity_iff goos app =
    >>-iff _ _ (refuse_if_iff _ _ (bad_mode_iff goos app.listen.network app.socket_mode)) (
      >>-iff _ _
        (refuse_if_iff _ _ (
          &&-false_iff _ _ (is_some_iff app.identity.password)
            (is_empty-false_iff app.identity.user)))
        (>>-iff _ _
          (refuse_if_iff _ _ (
            &&-false_iff _ _ (text_eq_iff goos (codes "linux"))
              (is_some-false_iff app.identity.password)))
          (refuse_if_iff _ _ (
            &&-false_iff _ _ (text_eq_iff goos (codes "windows"))
              (not_iff _ (is_empty_iff app.identity.group))))))

has_no_program_iff :
    (command : List Text)
    → (has_no_program command ≡ false) ↔ (
        (program : Text) × (arguments : List Text) × (command ≡ program ∷ arguments)
        × (program ≢ []))
unfolding has_no_program
has_no_program_iff [] = (λ h. absurd (false≢true (sym h)), λ h. cc (h.2))
has_no_program_iff (program ∷ arguments) = (
  λ h. (program, arguments, refl, (is_empty-false_iff program).0 h),
  λ h.
      let same : program ≡ h.0 = cc (h.2) in
      (is_empty-false_iff program).1 (λ e. h.3 (sym same ∙ e)),
)

pub contains_iff : (l : List Text) (s : Text) → (contains l s ≡ true) ↔ In s l
contains_iff [] s = (λ h. absurd (false≢true h), λ i. absurd i)
contains_iff (x ∷ xs) s = ||-iff _ _ (text_eq_iff s x) (contains_iff xs s)

xor_iff :
    (network address : Text)
    → ((if is_empty network then not (is_empty address) else is_empty address) ≡ false)
      ↔ (network ≡ [] ↔ address ≡ [])
xor_iff [] [] = (λ h. (λ e. refl, λ e. refl), λ h. refl)
xor_iff [] (c ∷ s) = (λ h. absurd (false≢true (sym h)), λ h. cc (h.0 refl))
xor_iff (c ∷ s) [] = (λ h. absurd (false≢true (sym h)), λ h. cc (h.1 refl))
xor_iff (c ∷ s) (d ∷ t) = (λ h. (λ e. cc, λ e. cc), λ h. refl)

pub check_command_iff : (app : App) → Passes (check_command app) ↔ HasCommand app
unfolding check_command
check_command_iff app = >>-iff _ _ (refuse_if_iff _ _ (has_no_program_iff app.command)) (
    >>-iff _ _ (refuse_if_iff _ _ (not_iff _ (contains_iff networks app.listen.network)))
      (refuse_if_iff _ _ (xor_iff app.listen.network app.listen.address)))
