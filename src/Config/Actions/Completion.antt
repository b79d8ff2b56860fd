-- ===== src/Config/Actions/Completion.antt =====
-- The limits that `validateActions` fills in where an action leaves them out.
use ooth.Prelude.{zero, suc, ◌≡◌, ◌≢◌, refl, List, [], ◌∷◌}
use ooth.Prelude.Signed.{pos, negsuc}
use ooth.Prelude.Texts.{Text}
use ooth.Schedule.Times.{Duration}
use ooth.Config.App.{Action}
use ooth.Config.Actions.{default_timeout, default_backoff, with_defaults}

-- A duration that is filled in if it is zero, and kept otherwise.
pub record IsFilled (default given result : Duration) : Type 0 where
  pub left_out : given ≡ pos 0 → result ≡ default
  pub kept : given ≢ pos 0 → result ≡ given

-- The second action is the first, with three seconds and a tenth of a second for what it leaves out.
pub record IsCompleted (action result : Action) : Type 0 where
  pub same : result ≡ record action { timeout = result.timeout; backoff = result.backoff }
  pub timeout : IsFilled (pos 3_000_000_000) action.timeout result.timeout
  pub backoff : IsFilled (pos 100_000_000) action.backoff result.backoff

-- Action by action, under the same names, none of which is empty.
abbrev pub AreCompleted : List (Text × Action) → List (Text × Action) → Type 0
AreCompleted [] [] = Unit {0}
AreCompleted [] (entry ∷ results) = ⊥
AreCompleted (entry ∷ actions) [] = ⊥
AreCompleted ((name, action) ∷ actions) ((name', result) ∷ results) =
    ((name ≢ []) × (name' ≡ name) × IsCompleted action result) × AreCompleted actions results

default_timeout-IsFilled : (d : Duration) → IsFilled (pos 3_000_000_000) d (default_timeout d)
unfolding default_timeout
default_timeout-IsFilled (pos zero) = record { left_out = λ e. refl; kept = λ n. absurd (n refl) }
default_timeout-IsFilled (pos (suc n)) = record { left_out = λ e. absurd (cc e); kept = λ m. refl }
default_timeout-IsFilled (negsuc n) = record { left_out = λ e. absurd (cc e); kept = λ m. refl }

default_backoff-IsFilled : (d : Duration) → IsFilled (pos 100_000_000) d (default_backoff d)
unfolding default_backoff
default_backoff-IsFilled (pos zero) = record { left_out = λ e. refl; kept = λ n. absurd (n refl) }
default_backoff-IsFilled (pos (suc n)) = record { left_out = λ e. absurd (cc e); kept = λ m. refl }
default_backoff-IsFilled (negsuc n) = record { left_out = λ e. absurd (cc e); kept = λ m. refl }

pub with_defaults-IsCompleted : (action : Action) → IsCompleted action (with_defaults action)
unfolding with_defaults
with_defaults-IsCompleted action = record {
  same = refl;
  timeout = default_timeout-IsFilled action.timeout;
  backoff = default_backoff-IsFilled action.backoff;
}
