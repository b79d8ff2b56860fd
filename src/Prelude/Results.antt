-- ===== src/Prelude/Results.antt =====
-- A value or an error: Go's pair of a result and an `error`.
use mathlib.Core.Path.{◌≡◌, refl}
use mathlib.Core.Bool.{Bool, true, false}

pub data Result {ℓ κ} (E : Type ℓ) (A : Type κ) : Type (ℓ ⊔ κ) where
  ok : A → Result E A
  err : E → Result E A

infixl 5 ◌>>=◌ ◌>>◌
abbrev pub ◌>>=◌ {ℓ κ μ} :
    {E : Type ℓ} {A : Type κ} {B : Type μ} → Result E A → (A → Result E B) → Result E B
ok a >>= f = f a
err e >>= f = err e

abbrev pub ◌>>◌ {ℓ κ} : {E : Type ℓ} {B : Type κ} → Result E (Unit {0}) → Result E B → Result E B
m >> k = m >>= λ _. k

-- `if bad { return error }`
abbrev pub refuse_if {ℓ} : {E : Type ℓ} → Bool → E → Result E (Unit {0})
refuse_if true e = err e
refuse_if false e = ok tt

-- A chain that succeeds has a first step that does, and passes its value on.
pub >>=-eq-ok {ℓ κ μ} :
    {E : Type ℓ} {A : Type κ} {B : Type μ} (r : Result E A) (next_step : A → Result E B) {y : B}
    → (r >>= next_step) ≡ ok y
    → (x : A) × (r ≡ ok x) × (next_step x ≡ ok y)
>>=-eq-ok (err e) next_step same = cc
>>=-eq-ok (ok x) next_step same = (x, refl, same)

module _ {ℓ κ} {E : Type ℓ} {A : Type κ} where
  pub ok_inj : {a b : A} → ◌≡◌ {A = Result E A} (ok a) (ok b) → a ≡ b
  ok_inj e = cc

  pub err-ne-ok : {e : E} {a : A} → ¬ (◌≡◌ {A = Result E A} (err e) (ok a))
  err-ne-ok h = cc

-- A check that was passed, and what follows it.
pub refuse_if-passed {ℓ κ} :
    {E : Type ℓ} {A : Type κ} (b : Bool) (e : E) (rest : Result E A) {a : A}
    → (refuse_if b e >> rest) ≡ ok a
    → (b ≡ false) × (rest ≡ ok a)
refuse_if-passed true e rest h = absurd (err-ne-ok h)
refuse_if-passed false e rest h = (refl, h)

-- Another type of errors around a result.
abbrev pub wrap {ℓ κ μ} : {E : Type ℓ} {F : Type κ} {A : Type μ} → (E → F) → Result E A → Result F A
wrap f (ok a) = ok a
wrap f (err e) = err (f e)

pub wrap-ok {ℓ κ μ} :
    {E : Type ℓ} {F : Type κ} {A : Type μ} (f : E → F) (r : Result E A) {a : A}
    → wrap f r ≡ ok a
    → r ≡ ok a
wrap-ok f (ok a) h = cc
wrap-ok f (err e) h = absurd (err-ne-ok h)
