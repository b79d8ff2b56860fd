-- ===== src/Protocol/Wire/Decimal.antt =====
-- The digits of a number are read back as the number.
use ooth.Prelude.{
  ℕ, zero, suc, ◌+◌, ◌*◌, ◌-◌, ◌/◌, ◌%◌, ◌^◌, ◌<◌, ◌≡◌, refl, ◌∙◌, inl, inr, true, false, some, [],
  ◌∷◌, ◌==◌, ==_iff, Bool-cases, all, is_empty, arith,
}
use mathlib.Core.Bool.{true≢false}
use ooth.Prelude.Signed.{pos}
use ooth.Prelude.Texts.{Text, is_digit, digits_value, in_int64, atoi}
use ooth.Protocol.Wire.{last_digit, digits, format_int, valid_char, valid_value}

last_digit-is_digit : (n : ℕ) → is_digit (last_digit n) ≡ true
unfolding is_digit
last_digit-is_digit n = let below : n % 10 < 10 = omega arith in ground (arith, below)

digits_value-step :
    (a n : ℕ) (rest : Text)
    → digits_value a (last_digit n ∷ rest) ≡ digits_value (a * 10 + n % 10) rest
unfolding digits_value
digits_value-step a n rest =
    let value : a * 10 + (last_digit n - b'0') ≡ a * 10 + n % 10 = omega arith in
    rw (last_digit-is_digit n, value) refl

nonzero : (n : ℕ) → n == 0 ≡ false → 0 < n
nonzero n h = ground arith

-- The digits in front of a text put their number in front of its value.
digits_value-digits :
    (fuel n : ℕ) (rest : Text)
    → n < fuel
    → digits_value 0 (digits fuel n rest) ≡ digits_value n rest
unfolding digits
digits_value-digits zero n rest h = absurd (omega arith)
digits_value-digits (suc fuel) n rest h = elim (Bool-cases (n / 10 == 0)) [
  | inl small ↦
      let only : 0 * 10 + n % 10 ≡ n = omega (arith, (==_iff (n / 10) 0).0 small) in
      rw (digits, small) (digits_value-step 0 n rest ∙ rw only refl)
  | inr large ↦
      let all_of : n / 10 * 10 + n % 10 ≡ n = omega arith in
      rw (digits, large)
        (digits_value-digits fuel (n / 10) (last_digit n ∷ rest)
            (omega (arith, h, nonzero (n / 10) large))
          ∙ (digits_value-step (n / 10) n rest ∙ rw all_of refl))
]

-- They are digits, and not empty.
digits-all :
    (fuel n : ℕ) (rest : Text) → all is_digit rest ≡ true → all is_digit (digits fuel n rest) ≡ true
unfolding digits
digits-all zero n rest h = h
digits-all (suc fuel) n rest h = elim (Bool-cases (n / 10 == 0)) [
  | inl small ↦ rw (digits, small) (rw (last_digit-is_digit n) h)
  | inr large ↦
      rw (digits, large)
        (digits-all fuel (n / 10) (last_digit n ∷ rest) (rw (last_digit-is_digit n) h))
]

digits-is_empty : (fuel n c : ℕ) (rest : Text) → is_empty (digits fuel n (c ∷ rest)) ≡ false
unfolding digits
digits-is_empty zero n c rest = refl
digits-is_empty (suc fuel) n c rest = elim (Bool-cases (n / 10 == 0)) [
  | inl small ↦ rw (digits, small) refl
  | inr large ↦ rw (digits, large) (digits-is_empty fuel (n / 10) (last_digit n) (c ∷ rest))
]

decimal-is_empty : (n : ℕ) → is_empty (digits (suc n) n []) ≡ false
unfolding digits
decimal-is_empty n = elim (Bool-cases (n / 10 == 0)) [
  | inl small ↦ rw small refl
  | inr large ↦ rw large (digits-is_empty n (n / 10) (last_digit n) [])
]

-- `Atoi` of digits alone is their value, if it is below 2^63.
atoi_of_digits :
    (t : Text) (n : ℕ)
    → is_empty t ≡ false
    → all is_digit t ≡ true
    → digits_value 0 t ≡ some n
    → n < 2 ^ 63
    → atoi t ≡ some (pos n)
unfolding atoi digits_value is_digit in_int64
atoi_of_digits [] n e d v h = absurd (true≢false e)
atoi_of_digits (c ∷ s) n e d v h = ground (arith, v)

-- A number below 2^63 is read back from its digits.
pub atoi-format_int : (n : ℕ) → n < 2 ^ 63 → atoi (format_int (pos n)) ≡ some (pos n)
unfolding format_int digits_value
atoi-format_int n h =
    atoi_of_digits (digits (suc n) n []) n (decimal-is_empty n) (digits-all (suc n) n [] refl)
      (digits_value-digits (suc n) n [] (omega arith)) h

valid_digits : (t : Text) → all is_digit t ≡ true → all valid_char t ≡ true
unfolding is_digit valid_char
valid_digits [] d = refl
valid_digits (c ∷ s) d = ground (arith, valid_digits s)

-- It is a value that the protocol lets through.
pub format_int-valid_value : (n : ℕ) → valid_value (format_int (pos n)) ≡ true
unfolding format_int valid_value
format_int-valid_value n =
    rw (decimal-is_empty n, valid_digits (digits (suc n) n []) (digits-all (suc n) n [] refl)) refl
