-- ===== src/Config/Validation/Refusals.antt =====
-- What it means that a test does not refuse, and that a chain of refusals succeeds.
use ooth.Prelude.{
  ℕ, zero, suc, ◌≤◌, ◌≡◌, ◌≢◌, ◌↔◌, inl, inr, refl, sym, Bool, true, false, not, ◌&&◌, ◌||◌, Option,
  none, some, List, [], ◌∷◌, ◌++◌, arith, Option-cases, ltb, ◌==◌, is_empty, is_some, any, In,
  Result, ok, err, ◌>>◌, refuse_if, err-ne-ok,
}
use mathlib.Core.Bool.{false≢true}
use mathlib.Core.Path.{subst}
use ooth.Prelude.Signed.{ℤ, pos, negsuc, leb_ℤ, ltb_ℤ, is_zero}
use ooth.Prelude.Texts.{Text, cut_text, after_prefix, starts_with}

module _ {ℓ} {E : Type ℓ} where
  abbrev pub Passes : Result E (Unit {0}) → Type ℓ
  Passes r = ◌≡◌ {A = Result E (Unit {0})} r (ok tt)

  pub refuse_if_iff {κ} :
      {P : Type κ} (b : Bool) (e : E) → (b ≡ false) ↔ P → Passes (refuse_if b e) ↔ P
  refuse_if_iff true e h = (λ r. absurd (err-ne-ok r), λ p. absurd (false≢true (sym (h.1 p))))
  refuse_if_iff false e h = (λ r. h.0 refl, λ p. refl)

  pub >>-iff {κ μ} :
      {P : Type κ} {Q : Type μ} (first rest : Result E (Unit {0}))
      → Passes first ↔ P
      → Passes rest ↔ Q
      → Passes (first >> rest) ↔ (P × Q)
  >>-iff (err e) rest f g = (λ r. absurd (err-ne-ok r), λ p. absurd (err-ne-ok (f.1 p.0)))
  >>-iff (ok tt) rest f g = (λ r. (f.0 refl, g.0 r), λ p. g.1 p.1)

-- A test that fails, read in the words of a statement.
module _ {ℓ κ} {P : Type ℓ} {Q : Type κ} where
  pub ||-false_iff : (a b : Bool) → (a ≡ false) ↔ P → (b ≡ false) ↔ Q → ((a || b) ≡ false) ↔ (P × Q)
  ||-false_iff true b f g = (λ h. absurd (false≢true (sym h)), λ p. f.1 p.0)
  ||-false_iff false b f g = (λ h. (f.0 refl, g.0 h), λ p. g.1 p.1)

  pub &&-false_iff : (a b : Bool) → (a ≡ true) ↔ P → (b ≡ false) ↔ Q → ((a && b) ≡ false) ↔ (P → Q)
  &&-false_iff true b f g = (λ h p. g.0 h, λ k. g.1 (k (f.0 refl)))
  &&-false_iff false b f g = (λ h p. absurd (false≢true (f.1 p)), λ k. refl)

pub not_iff {ℓ} : {P : Type ℓ} (b : Bool) → (b ≡ true) ↔ P → (not b ≡ false) ↔ P
not_iff true f = (λ h. f.0 refl, λ p. refl)
not_iff false f = (λ h. absurd (false≢true (sym h)), λ p. absurd (false≢true (f.1 p)))

pub false_iff {ℓ} : {P : Type ℓ} (b : Bool) → (b ≡ true) ↔ P → (b ≡ false) ↔ ¬ P
false_iff true f = (λ h. absurd (false≢true (sym h)), λ n. absurd (n (f.0 refl)))
false_iff false f = (λ h p. false≢true (f.1 p), λ n. refl)

pub same_iff {ℓ} : {A : Type ℓ} (a b : A) → (a ≡ b) ↔ (a ≡ b)
same_iff a b = (λ h. h, λ h. h)

pub is_empty_iff : (s : Text) → (is_empty s ≡ true) ↔ (s ≡ [])
is_empty_iff [] = (λ h. refl, λ h. refl)
is_empty_iff (c ∷ s) = (λ h. absurd (false≢true h), λ h. cc)

pub is_empty-false_iff : (s : Text) → (is_empty s ≡ false) ↔ (s ≢ [])
is_empty-false_iff [] = (λ h. absurd (false≢true (sym h)), λ h. absurd (h refl))
is_empty-false_iff (c ∷ s) = (λ h e. cc, λ h. refl)

pub filled_iff : (s : Text) → (not (is_empty s) ≡ true) ↔ (s ≢ [])
filled_iff [] = (λ h. absurd (false≢true h), λ h. absurd (h refl))
filled_iff (c ∷ s) = (λ h e. cc, λ h. refl)

pub is_some-false_iff {ℓ} : {A : Type ℓ} (o : Option A) → (is_some o ≡ false) ↔ (o ≡ none)
is_some-false_iff none = (λ h. refl, λ h. refl)
is_some-false_iff (some a) = (λ h. absurd (false≢true (sym h)), λ h. cc)

pub is_some_iff {ℓ} : {A : Type ℓ} (o : Option A) → (is_some o ≡ true) ↔ (o ≢ none)
is_some_iff none = (λ h. absurd (false≢true h), λ h. absurd (h refl))
is_some_iff (some a) = (λ h e. cc, λ h. refl)

pub ==-false_iff : (a b : ℕ) → ((a == b) ≡ false) ↔ (a ≢ b)
==-false_iff a b = ground arith

-- The values of Go's integers that a check lets through.
abbrev pub NonNegative : ℤ → Type 0
NonNegative d = (n : ℕ) × (d ≡ pos n)

abbrev pub Positive : ℤ → Type 0
Positive d = (n : ℕ) × (d ≡ pos (suc n))

pub ltb_ℤ-zero_iff : (d : ℤ) → (ltb_ℤ d (pos 0) ≡ false) ↔ NonNegative d
ltb_ℤ-zero_iff (pos n) = (λ h. (n, refl), λ p. ground arith)
ltb_ℤ-zero_iff (negsuc n) = (λ h. absurd (false≢true (sym h)), λ p. absurd (cc (p.1)))

pub leb_ℤ-zero_iff : (d : ℤ) → (leb_ℤ d (pos 0) ≡ false) ↔ Positive d
leb_ℤ-zero_iff (pos zero) = (λ h. absurd (false≢true (sym h)), λ p. absurd (cc (p.1)))
leb_ℤ-zero_iff (pos (suc n)) = (λ h. (n, refl), λ p. ground arith)
leb_ℤ-zero_iff (negsuc n) = (λ h. absurd (false≢true (sym h)), λ p. absurd (cc (p.1)))

pub is_zero_iff : (d : ℤ) → (is_zero d ≡ true) ↔ (d ≡ pos 0)
is_zero_iff (pos zero) = (λ h. refl, λ h. refl)
is_zero_iff (pos (suc n)) = (λ h. absurd (false≢true h), λ h. absurd (cc h))
is_zero_iff (negsuc n) = (λ h. absurd (false≢true h), λ h. absurd (cc h))

pub ltb-false_iff : (a b : ℕ) → (ltb a b ≡ false) ↔ (b ≤ a)
ltb-false_iff a b = ground arith

pub starts_with_iff : (p s : Text) → (starts_with p s ≡ true) ↔ ((rest : Text) × (s ≡ p ++ rest))
unfolding starts_with
starts_with_iff [] s = (λ h. (s, refl), λ r. refl)
starts_with_iff (p ∷ ps) [] = (λ h. absurd (false≢true h), λ r. absurd (cc (r.1)))
starts_with_iff (p ∷ ps) (c ∷ s) =
    let rest = starts_with_iff ps s in
    (
      λ h. let (r, e) = rest.0 (ground arith) in (r, ground arith),
      λ r. let tail = rest.1 (r.0, ground arith) in ground arith,
    )

pub any-false_iff {ℓ} :
    {A : Type 0} {P : A → Type ℓ} (p : A → Bool) (l : List A)
    → ((a : A) → (p a ≡ false) ↔ P a)
    → (any p l ≡ false) ↔ ((a : A) → In a l → P a)
any-false_iff p [] f = (λ h a i. absurd i, λ h. refl)
any-false_iff {P = P} p (x ∷ xs) f =
    let rest = any-false_iff p xs f in
    (
      λ h a i.
          let parts = (||-false_iff (p x) (any p xs) (f x) rest).0 h in
          elim i [ inl e ↦ subst P (sym e) parts.0 | inr j ↦ parts.1 a j ],
      λ h. (||-false_iff (p x) (any p xs) (f x) rest).1 (h x (inl refl), λ a i. h a (inr i)),
    )

after_prefix-eq : (p s rest : Text) → after_prefix p s ≡ some rest → s ≡ p ++ rest
unfolding after_prefix
after_prefix-eq [] s rest h = ground arith
after_prefix-eq (p ∷ ps) [] rest h = cc
after_prefix-eq (p ∷ ps) (c ∷ s) rest h = ground (arith, after_prefix-eq ps s rest)

-- What stands on both sides of a separator that was found makes up the text.
pub cut_text-eq :
    (sep s before after : Text)
    → cut_text sep s ≡ some (before, after)
    → s ≡ before ++ (sep ++ after)
unfolding cut_text
cut_text-eq sep [] before after h = cc
cut_text-eq sep (c ∷ s) before after h = elim (Option-cases (after_prefix sep (c ∷ s))) [
  | inr (rest, found) ↦ ground (arith, after_prefix-eq sep (c ∷ s) rest)
  | inl absent ↦ elim (Option-cases (cut_text sep s)) [
    | inl none_of ↦ ground arith
    | inr ((before', after'), inner) ↦ ground (arith, cut_text-eq sep s before' after')
  ]
]
