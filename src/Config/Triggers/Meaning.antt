-- ===== src/Config/Triggers/Meaning.antt =====
-- The triggers that `validateActions` leaves in a configuration.
use ooth.Prelude.{
  zero, suc, ◌≡◌, ◌↔◌, refl, sym, inl, inr, true, false, List, [], ◌∷◌, arith, Bool-cases, ◌∙◌, In,
  not-false, is_empty, All, ok, refuse_if-passed, >>=-eq-ok, ok_inj,
}
use mathlib.Core.Bool.{false≢true}
use mathlib.Core.Path.{subst}
use ooth.Prelude.Signed.{ℤ, pos, negsuc, ltb_ℤ}
use ooth.Prelude.Texts.{Text, codes, text_eq, text_eq_iff, contains}
use ooth.Schedule.Times.{Duration}
use ooth.Config.App.{Action, Trigger}
use ooth.Config.Validation.Refusals.{is_empty_iff}
use ooth.Config.Triggers.{
  trigger_events, scopes, responses, is_periodic, default_scope, default_interval,
  default_threshold, default_response, bad_period, completed, check_binding, check_bindings,
  check_triggers,
}
use ooth.Config.Triggers.Words.{IsTested-IsBinding, IsBinding-IsTested}
use ooth.Config.Triggers.Periods.{
  IsBinding, IsTested, IsChecked, check_completed-IsChecked, IsChecked-completed, passed_period,
  filled_interval,
}

check_binding-IsTested :
    (actions : List (Text × Action)) (event : Text) (binding : Trigger) {result : Trigger}
    → check_binding actions event binding ≡ ok result
    → IsTested actions event result
unfolding check_binding completed
check_binding-IsTested actions event binding h =
    let (c, same) = check_completed-IsChecked actions event (completed event binding) h in
    let period = passed_period event _ _ c.period (filled_interval event binding.interval) in
    subst (IsTested actions event) (sym same) (record {
      known = ground arith;
      scoped = ground arith;
      periodic = period.0;
      single = period.1;
      responds = ground arith;
      restarts =
          λ e. ground (arith, text_eq_iff (default_response event binding) (codes "restart"));
    })

-- What is filled in stays as it is.
scope_kept : (scope : Text) → contains scopes scope ≡ true → default_scope scope ≡ scope
unfolding default_scope
scope_kept [] h = absurd (false≢true h)
scope_kept (c ∷ s) h = refl

response_kept :
    (event : Text) (binding : Trigger)
    → contains responses binding.on_failure ≡ true
    → default_response event binding ≡ binding.on_failure
unfolding default_response
response_kept event binding h = elim (Bool-cases (is_empty binding.on_failure)) [
  | inr filled ↦ rw filled refl
  | inl left_out ↦
      let none_of : binding.on_failure ≡ [] = (is_empty_iff binding.on_failure).0 left_out in
      absurd (false≢true (subst (λ s. contains responses s ≡ true) none_of h))
]

interval_kept :
    (event : Text) (interval : Duration)
    → (is_periodic event ≡ true → ltb_ℤ (pos 0) interval ≡ true)
    → default_interval event interval ≡ interval
unfolding default_interval
interval_kept event (pos zero) h = ground arith
interval_kept event (pos (suc n)) h = refl
interval_kept event (negsuc n) h = refl

threshold_kept :
    (event : Text) (threshold : ℤ)
    → (is_periodic event ≡ true → ltb_ℤ (pos 0) threshold ≡ true)
    → (is_periodic event ≡ false → threshold ≡ pos 1)
    → default_threshold event threshold ≡ threshold
unfolding default_threshold
threshold_kept event (pos zero) f g = ground arith
threshold_kept event (pos (suc n)) f g = refl
threshold_kept event (negsuc n) f g = refl

good_period :
    (event : Text) (interval : Duration) (threshold : ℤ)
    → (is_periodic event ≡ true
        → (ltb_ℤ (pos 0) interval ≡ true) × (ltb_ℤ (pos 0) threshold ≡ true))
    → (is_periodic event ≡ false → (interval ≡ pos 0) × (threshold ≡ pos 1))
    → bad_period event interval threshold ≡ false
unfolding bad_period
good_period event (pos i) (pos n) f g = ground arith
good_period event (negsuc i) threshold f g = ground arith
good_period event (pos i) (negsuc n) f g = ground arith

module _ (actions : List (Text × Action)) (event : Text) (binding : Trigger)
    (b : IsTested actions event binding) where
  completed-same : completed event binding ≡ binding
  unfolding completed
  completed-same =
      rw
        (
          scope_kept binding.scope b.scoped,
          response_kept event binding b.responds,
          interval_kept event binding.interval (λ e. (b.periodic e).0),
          threshold_kept event binding.failure_threshold (λ e. (b.periodic e).1)
              (λ e. (b.single e).1),
        )
        refl

  IsTested-IsChecked : IsChecked actions event binding
  IsTested-IsChecked = record {
    known = ground arith;
    scoped = ground arith;
    period = good_period event binding.interval binding.failure_threshold b.periodic b.single;
    responds = ground arith;
    restarts = ground (arith, text_eq_iff binding.on_failure (codes "restart"));
  }

  -- A binding of this kind is complete and passes.
  IsTested-check_binding : check_binding actions event binding ≡ ok binding
  unfolding check_binding
  IsTested-check_binding =
      rw completed-same (IsChecked-completed actions event binding IsTested-IsChecked)

check_bindings-All :
    (actions : List (Text × Action)) (event : Text) (l : List Trigger) {result : List Trigger}
    → check_bindings actions event l ≡ ok result
    → All (IsBinding actions event) result
unfolding check_bindings
check_bindings-All actions event [] h = rw (← (ok_inj h)) tt
check_bindings-All actions event (binding ∷ rest) h =
    let (binding', first, h1) = >>=-eq-ok (check_binding actions event binding) _ h in
    let (rest', others, h2) = >>=-eq-ok (check_bindings actions event rest) _ h1 in
    rw (← (ok_inj h2)) (
      IsTested-IsBinding actions event binding'
          (check_binding-IsTested actions event binding first),
      check_bindings-All actions event rest others,
    )

All-check_bindings :
    (actions : List (Text × Action)) (event : Text) (l : List Trigger)
    → All (IsBinding actions event) l
    → check_bindings actions event l ≡ ok l
unfolding check_bindings
All-check_bindings actions event [] h = refl
All-check_bindings actions event (binding ∷ rest) h =
    rw
      (
        IsTested-check_binding actions event binding (IsBinding-IsTested actions event binding h.0),
        All-check_bindings actions event rest h.1,
      )
      refl

abbrev known_events : List Text
known_events =
    codes "pre_start"
    ∷ codes "post_start"
    ∷ codes "pre_stop"
    ∷ codes "post_stop"
    ∷ codes "readiness"
    ∷ codes "health"
    ∷ []

known_iff : (l : List Text) (event : Text) → (contains l event ≡ true) ↔ In event l
known_iff [] event = (λ h. absurd (false≢true h), λ i. absurd i)
known_iff (known ∷ l) event = (
  λ h. elim (Bool-cases (text_eq event known)) [
    | inl same ↦ inl ((text_eq_iff event known).0 same)
    | inr other ↦ inr ((known_iff l event).0 (rw other at h))
  ],
  λ i. elim (Bool-cases (text_eq event known)) [
    | inl same ↦ rw same refl
    | inr other ↦ elim i [
      | inl e ↦ absurd (false≢true (sym other ∙ (text_eq_iff event known).1 e))
      | inr j ↦ rw other ((known_iff l event).1 j)
    ]
  ],
)

-- The triggers of an app: known events, each with bindings of its kind.
abbrev pub AreTriggers : List (Text × Action) → List (Text × List Trigger) → Type 0
AreTriggers actions triggers =
    All (λ p. In p.0 known_events × All (IsBinding actions p.0) p.1) triggers

-- Triggers that are accepted come out complete: every event is known, and every binding is a binding of
-- its event's kind, with a known action, scope and response, with an interval and a threshold
-- exactly if its event is periodic, and with a restart only where one is possible.
pub check_triggers-AreTriggers :
    (actions : List (Text × Action)) (triggers result : List (Text × List Trigger))
    → check_triggers actions triggers ≡ ok result
    → AreTriggers actions result
unfolding check_triggers
check_triggers-AreTriggers actions [] result h = rw (← (ok_inj h)) tt
check_triggers-AreTriggers actions ((event, bindings) ∷ rest) result h =
    let (known, h1) = refuse_if-passed _ _ _ h in
    let (bindings', first, h2) = >>=-eq-ok (check_bindings actions event bindings) _ h1 in
    let (rest', others, h3) = >>=-eq-ok (check_triggers actions rest) _ h2 in
    let all_good : AreTriggers actions ((event, bindings') ∷ rest') = (
      (
        (known_iff trigger_events event).0 (not-false _ known),
        check_bindings-All actions event bindings first,
      ),
      check_triggers-AreTriggers actions rest rest' others,
    ) in
    subst (AreTriggers actions) (ok_inj h3) all_good

AreTriggers-check_triggers :
    (actions : List (Text × Action)) (triggers : List (Text × List Trigger))
    → AreTriggers actions triggers
    → check_triggers actions triggers ≡ ok triggers
unfolding check_triggers
AreTriggers-check_triggers actions [] h = refl
AreTriggers-check_triggers actions ((event, bindings) ∷ rest) h =
    rw
      (
        (known_iff trigger_events event).1 h.0.0,
        All-check_bindings actions event bindings h.0.1,
        AreTriggers-check_triggers actions rest h.1,
      )
      refl

-- Triggers are accepted as they are exactly if they are complete in this sense: checking the result
-- of a check again changes nothing.
pub check_triggers-fixed :
    (actions : List (Text × Action)) (triggers : List (Text × List Trigger))
    → (check_triggers actions triggers ≡ ok triggers) ↔ AreTriggers actions triggers
check_triggers-fixed actions triggers = (
  check_triggers-AreTriggers actions triggers triggers,
  AreTriggers-check_triggers actions triggers,
)
