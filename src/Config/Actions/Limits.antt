-- ===== src/Config/Actions/Limits.antt =====
-- What an accepted action satisfies, and what the tests of `validateActions` say of it.
use ooth.Prelude.{
  ℕ, ◌≤◌, ◌≡◌, ◌≢◌, ◌⊎◌, inl, inr, refl, sym, Bool, true, false, not, ◌&&◌, ◌||◌, ◌==◌, Option,
  none, some, List, [], ◌∷◌, arith, is_empty, is_some, any, In, Result, ok,
}
use mathlib.Core.Bool.{false≢true}
use ooth.Prelude.Signed.{ℤ, pos, negsuc, ltb_ℤ}
use ooth.Prelude.Texts.{Text}
use ooth.Config.App.{SocketCheck, Action}
use ooth.Config.Libraries.{Libraries}
use ooth.Config.Templates.{TemplateError, expand_action}
use ooth.Config.Validation.Refusals.{
  Positive, NonNegative, ltb_ℤ-zero_iff, leb_ℤ-zero_iff, ||-false_iff, &&-false_iff, same_iff,
  is_empty_iff, is_empty-false_iff, is_some-false_iff, any-false_iff, ==-false_iff,
}
use ooth.Config.Actions.Runnable.{IsRunnable}
use ooth.Config.Actions.{
  count_true, kinds, bad_limits, lacks_command, lacks_reply, bad_key, bad_status,
}

-- An action is of exactly one kind.
pub data IsKind (action : Action) : Type 0 where
  runs_command :
      action.command ≢ []
      → action.http ≡ none
      → action.tcp ≡ none
      → action.udp ≡ none
      → IsKind action
  sends_http :
      action.command ≡ []
      → action.http ≢ none
      → action.tcp ≡ none
      → action.udp ≡ none
      → IsKind action
  checks_tcp :
      action.command ≡ []
      → action.http ≡ none
      → action.tcp ≢ none
      → action.udp ≡ none
      → IsKind action
  checks_udp :
      action.command ≡ []
      → action.http ≡ none
      → action.tcp ≡ none
      → action.udp ≢ none
      → IsKind action

one_of :
    (a b c d : Bool)
    → (count_true (a ∷ b ∷ c ∷ d ∷ []) == 1) ≡ true
    → ((a ≡ true) × (b ≡ false) × (c ≡ false) × (d ≡ false))
      ⊎ (((a ≡ false) × (b ≡ true) × (c ≡ false) × (d ≡ false))
          ⊎ (((a ≡ false) × (b ≡ false) × (c ≡ true) × (d ≡ false))
              ⊎ ((a ≡ false) × (b ≡ false) × (c ≡ false) × (d ≡ true))))
unfolding count_true
one_of true false false false h = inl (refl, refl, refl, refl)
one_of false true false false h = inr (inl (refl, refl, refl, refl))
one_of false false true false h = inr (inr (inl (refl, refl, refl, refl)))
one_of false false false true h = inr (inr (inr (refl, refl, refl, refl)))
one_of true true c d h = absurd (ground arith)
one_of true false true d h = absurd (ground arith)
one_of true false false true h = absurd (ground arith)
one_of false true true d h = absurd (ground arith)
one_of false true false true h = absurd (ground arith)
one_of false false true true h = absurd (ground arith)
one_of false false false false h = absurd (ground arith)

some_of : {A : Type 0} (o : Option A) → is_some o ≡ true → o ≢ none
some_of none h = absurd (false≢true h)
some_of (some a) h = λ e. cc

none_of : {A : Type 0} (o : Option A) → is_some o ≡ false → o ≡ none
none_of o h = (is_some-false_iff o).0 h

filled : {A : Type 0} (l : List A) → not (is_empty l) ≡ true → l ≢ []
filled [] h = absurd (false≢true h)
filled (x ∷ xs) h = λ e. cc

hollow : {A : Type 0} (l : List A) → not (is_empty l) ≡ false → l ≡ []
hollow [] h = refl
hollow (x ∷ xs) h = absurd (false≢true (sym h))

pub kinds-IsKind : (action : Action) → (kinds action == 1) ≡ true → IsKind action
unfolding kinds
kinds-IsKind action h = elim (one_of _ _ _ _ h) [
  | inl p ↦ runs_command (filled _ p.0) (none_of _ p.1) (none_of _ p.2) (none_of _ p.3)
  | inr (inl p) ↦ sends_http (hollow _ p.0) (some_of _ p.1) (none_of _ p.2) (none_of _ p.3)
  | inr (inr (inl p)) ↦ checks_tcp (hollow _ p.0) (none_of _ p.1) (some_of _ p.2) (none_of _ p.3)
  | inr (inr (inr p)) ↦ checks_udp (hollow _ p.0) (none_of _ p.1) (none_of _ p.2) (some_of _ p.3)
]

-- What an accepted action satisfies: its kind, its limits, the expectations that its kind allows, and
-- an expansion that can be run.
pub record IsAction (libraries : Libraries) (expand : Text → Result TemplateError Text)
    (action : Action) : Type 0 where
  pub kind : IsKind action
  pub timeout : Positive action.timeout
  pub backoff : NonNegative action.backoff
  pub retries : (n : ℕ) × (action.retries ≡ pos n) × (n ≤ 100)
  pub command_only :
      action.command ≡ []
      → ((action.env ≡ []) × (action.directory ≡ [])) × (action.expect.exit_codes ≡ [])
  pub http_only : action.http ≡ none → action.expect.status ≡ []
  pub reply :
      (check : SocketCheck)
      → action.udp ≡ some check
      → (check.send ≢ []) × (action.expect.contains ≡ [] → action.expect.regexp ≢ [])
  pub statuses :
      (status : ℤ)
      → In status action.expect.status
      → (n : ℕ) × (status ≡ pos n) × (100 ≤ n) × (n ≤ 599)
  pub keys :
      (key value : Text)
      → In (key, value) action.env
      → (key ≢ []) × ((c : ℕ) → In c key → (c ≢ b'=') × (c ≢ 0))
  pub expansion :
      (expanded : Action) × (expand_action expand action ≡ ok expanded)
      × IsRunnable libraries expanded

-- The tests, read in these words.
pub retries_limit :
    (retries : ℤ)
    → ltb_ℤ retries (pos 0) ≡ false
    → ltb_ℤ (pos 100) retries ≡ false
    → (n : ℕ) × (retries ≡ pos n) × (n ≤ 100)
retries_limit (pos n) g h = (n, refl, ground arith)
retries_limit (negsuc n) g h = absurd (false≢true (sym g))

pub status_range :
    (status : ℤ) → bad_status status ≡ false → (n : ℕ) × (status ≡ pos n) × (100 ≤ n) × (n ≤ 599)
unfolding bad_status
status_range (pos n) h = (n, refl, ground arith, ground arith)
status_range (negsuc n) h = absurd (false≢true (sym h))

pub reply_given :
    (action : Action) (check : SocketCheck)
    → lacks_reply action ≡ false
    → action.udp ≡ some check
    → (check.send ≢ []) × (action.expect.contains ≡ [] → action.expect.regexp ≢ [])
unfolding lacks_reply
reply_given action check h e =
    let given : (is_empty check.send
          || (is_empty action.expect.contains && is_empty action.expect.regexp))
        ≡ false =
      rw (lacks_reply, e) at h in
    (||-false_iff _ _ (is_empty-false_iff check.send) (
        &&-false_iff _ _ (is_empty_iff action.expect.contains)
          (is_empty-false_iff action.expect.regexp))).0
      given

pub key_passed :
    (key value : Text)
    → bad_key (key, value) ≡ false
    → (key ≢ []) × ((c : ℕ) → In c key → (c ≢ b'=') × (c ≢ 0))
unfolding bad_key
key_passed key value h =
    (||-false_iff (is_empty key) (any (λ c. c == b'=' || c == 0) key) (is_empty-false_iff key) (
        any-false_iff (λ c. c == b'=' || c == 0) key
          (λ c. ||-false_iff (c == b'=') (c == 0) (==-false_iff c b'=') (==-false_iff c 0)))).0
      h

module _ (action : Action) where
  pub limits_passed :
      bad_limits action ≡ false
      → ((Positive action.timeout × NonNegative action.backoff)
          × (ltb_ℤ action.retries (pos 0) ≡ false))
        × (ltb_ℤ (pos 100) action.retries ≡ false)
  unfolding bad_limits
  limits_passed =
      (||-false_iff _ _
        (||-false_iff _ _
          (||-false_iff _ _ (leb_ℤ-zero_iff action.timeout) (ltb_ℤ-zero_iff action.backoff))
          (same_iff _ _))
        (same_iff _ _)).0

  pub command_only_passed :
      lacks_command action ≡ false
      → action.command ≡ []
      → ((action.env ≡ []) × (action.directory ≡ [])) × (action.expect.exit_codes ≡ [])
  unfolding lacks_command
  command_only_passed h none_given =
      let tests =
        (||-false_iff (not (is_empty action.env) || not (is_empty action.directory))
            (not (is_empty action.expect.exit_codes))
            (||-false_iff _ _ (same_iff _ _) (same_iff _ _)) (same_iff _ _)).0
          ((&&-false_iff (is_empty action.command) _ (same_iff _ _) (same_iff _ _)).0 h
            (rw none_given refl)) in
      ((hollow _ tests.0.0, hollow _ tests.0.1), hollow _ tests.1)

  pub http_only_passed :
      (not (is_some action.http) && not (is_empty action.expect.status)) ≡ false
      → action.http ≡ none
      → action.expect.status ≡ []
  http_only_passed h none_given = hollow _ (
      (&&-false_iff (not (is_some action.http)) _ (same_iff _ _) (same_iff _ _)).0 h
        (rw none_given refl))
