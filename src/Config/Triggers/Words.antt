-- ===== src/Config/Triggers/Words.antt =====
-- The tests of a trigger, and a binding that is complete in words of its own.
use ooth.Prelude.{
  zero, suc, ◌≡◌, ◌≢◌, ◌↔◌, ◌⊎◌, inl, inr, refl, Bool, true, false, not, ◌||◌, Option, none, some,
  List, [], ◌∷◌, arith,
}
use mathlib.Core.Bool.{false≢true}
use ooth.Prelude.Signed.{ℤ, pos, negsuc, ltb_ℤ}
use ooth.Prelude.Texts.{Text, codes, text_eq, text_eq_iff, contains}
use ooth.Config.App.{Action, Trigger, awaited}
use ooth.Config.Validation.Refusals.{Positive, is_some_iff, not_iff, false_iff, ||-false_iff}
use ooth.Config.Triggers.{is_periodic, cannot_restart}
use ooth.Config.Triggers.Periods.{IsPeriodic, IsStop, IsAwaited, IsBinding, IsTested}

||_iff {ℓ κ} :
    {P : Type ℓ} {Q : Type κ} (a b : Bool)
    → (a ≡ true) ↔ P
    → (b ≡ true) ↔ Q
    → ((a || b) ≡ true) ↔ (P ⊎ Q)
||_iff true b f g = (λ h. inl (f.0 refl), λ p. refl)
||_iff false b f g =
    (λ h. inr (g.0 h), λ p. elim p [ inl x ↦ absurd (false≢true (f.1 x)) | inr y ↦ g.1 y ])

two_iff : (a b s : Text) → (contains (a ∷ b ∷ []) s ≡ true) ↔ ((s ≡ a) ⊎ (s ≡ b))
two_iff a b s =
    let tests = ||_iff (text_eq s a) (text_eq s b || false) (text_eq_iff s a) (last s b) in tests
  where
    last : (s b : Text) → ((text_eq s b || false) ≡ true) ↔ (s ≡ b)
    last s b = (
      λ h. (text_eq_iff s b).0 (ground arith),
      λ e. let same = (text_eq_iff s b).1 e in ground arith,
    )

is_periodic_iff : (event : Text) → (is_periodic event ≡ true) ↔ IsPeriodic event
unfolding is_periodic
is_periodic_iff event =
    ||_iff _ _ (text_eq_iff event (codes "health")) (text_eq_iff event (codes "readiness"))

awaited_by : Option Bool → Bool
awaited_by o = elim o [ none ↦ true | some wait ↦ wait ]

wait_iff : (o : Option Bool) → (awaited_by o ≡ true) ↔ (o ≢ some false)
unfolding awaited_by
wait_iff none = (λ h e. cc, λ n. refl)
wait_iff (some true) = (λ h e. cc, λ n. refl)
wait_iff (some false) = (λ h. absurd (false≢true h), λ n. absurd (n refl))

awaited_iff : (binding : Trigger) → (awaited binding ≡ true) ↔ IsAwaited binding
unfolding awaited_by
awaited_iff binding = wait_iff binding.wait

above_zero_iff : (d : ℤ) → (ltb_ℤ (pos 0) d ≡ true) ↔ Positive d
above_zero_iff (pos zero) = (λ h. absurd (false≢true h), λ p. absurd (cc (p.1)))
above_zero_iff (pos (suc n)) = (λ h. (n, refl), λ p. ground arith)
above_zero_iff (negsuc n) = (λ h. absurd (false≢true h), λ p. absurd (cc (p.1)))

restart_iff :
    (event : Text) (binding : Trigger)
    → (cannot_restart event binding ≡ false) ↔ (IsAwaited binding × ¬ IsStop event)
unfolding cannot_restart
restart_iff event binding =
    let tests =
      ||-false_iff (not (awaited binding) || text_eq event (codes "pre_stop"))
        (text_eq event (codes "post_stop"))
        (||-false_iff (not (awaited binding)) (text_eq event (codes "pre_stop"))
          (not_iff _ (awaited_iff binding)) (false_iff _ (text_eq_iff event (codes "pre_stop"))))
        (false_iff _ (text_eq_iff event (codes "post_stop"))) in
    (
      λ h.
          let ((waited, before), after) = tests.0 h in
          (waited, λ stop. elim stop [ inl e ↦ before e | inr e ↦ after e ]),
      λ (waited, starts). tests.1 ((waited, λ e. starts (inl e)), λ e. starts (inr e)),
    )

module _ (actions : List (Text × Action)) (event : Text) (binding : Trigger) where
  pub IsTested-IsBinding : IsTested actions event binding → IsBinding actions event binding
  IsTested-IsBinding t = record {
    known = (is_some_iff _).0 t.known;
    scoped = (two_iff _ _ binding.scope).0 t.scoped;
    periodic = λ p.
        let (i, n) = t.periodic ((is_periodic_iff event).1 p) in
        ((above_zero_iff _).0 i, (above_zero_iff _).0 n);
    single = λ n. t.single ((false_iff _ (is_periodic_iff event)).1 n);
    responds = (two_iff _ _ binding.on_failure).0 t.responds;
    restarts = λ e. (restart_iff event binding).0 (t.restarts e);
  }

  pub IsBinding-IsTested : IsBinding actions event binding → IsTested actions event binding
  IsBinding-IsTested b = record {
    known = (is_some_iff _).1 b.known;
    scoped = (two_iff _ _ binding.scope).1 b.scoped;
    periodic = λ h.
        let (i, n) = b.periodic ((is_periodic_iff event).0 h) in
        ((above_zero_iff _).1 i, (above_zero_iff _).1 n);
    single = λ h. b.single ((false_iff _ (is_periodic_iff event)).0 h);
    responds = (two_iff _ _ binding.on_failure).1 b.responds;
    restarts = λ e. (restart_iff event binding).1 (b.restarts e);
  }
