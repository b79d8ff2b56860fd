-- ===== src/Config/Permissions/Masks.antt =====
-- The words of the classes and of the permissions, bit by bit, and what a letter names.
use ooth.Prelude.{
  ℕ, zero, suc, ◌≤◌, ◌≡◌, refl, inl, inr, Bool, true, false, not, ◌||◌, ◌&&◌, Option, none, some,
  [], ◌∷◌, any, leb, ◌==◌, if◌then◌else◌, arith, Option-cases,
}
use Prim.Native.Nat.{bit_or}
use ooth.Prelude.Texts.{Text}
use ooth.Prelude.Bits.{has_bit, has_bit-bit_or, has_bit-above, has_bit-none}
use ooth.Config.Permissions.{Clause, who_bits, permission_bits, gather}

-- Whether a letter names the class of a bit: others have the bits 0 to 2, the group 3 to 5, the owner 6
-- to 8, and `a` is for all of them.
abbrev pub names_class : ℕ → ℕ → Bool
names_class c n =
    (c == b'u' && leb 6 n && leb n 8)
    || (c == b'g' && leb 3 n && leb n 5)
    || (c == b'o' && leb n 2)
    || (c == b'a' && leb n 8)

-- Whether a letter grants the permission of a bit: in each class `x` is the first bit, `w` the second
-- and `r` the third.
abbrev pub grants : ℕ → ℕ → Bool
grants c n =
    (c == b'x' && (n == 0 || n == 3 || n == 6))
    || (c == b'w' && (n == 1 || n == 4 || n == 7))
    || (c == b'r' && (n == 2 || n == 5 || n == 8))

-- A bit after a clause: one that the clause names is set, added or taken away, as the operator says; `=`
-- also clears the other bits of the classes.
abbrev pub bit_after : Clause → ℕ → Bool → Bool
bit_after clause n old =
    let named = any (λ c. names_class c n) clause.who in
    let granted = named && any (λ c. grants c n) clause.granted in
    if clause.operator == b'='
    then granted || (old && not named)
    else if clause.operator == b'+'
    then old || granted
    else old && not granted

class_bits_above :
    (n : ℕ)
    → 9 ≤ n
    → (has_bit 0o700 n ≡ (leb 6 n && leb n 8))
      × (has_bit 0o070 n ≡ (leb 3 n && leb n 5))
      × (has_bit 0o007 n ≡ leb n 2)
      × (has_bit 0o777 n ≡ leb n 8)
class_bits_above n h = (
  rw (has_bit-above 9 n 0o700 (omega arith) (omega arith)) (ground arith),
  rw (has_bit-above 9 n 0o070 (omega arith) (omega arith)) (ground arith),
  rw (has_bit-above 9 n 0o007 (omega arith) (omega arith)) (ground arith),
  rw (has_bit-above 9 n 0o777 (omega arith) (omega arith)) (ground arith),
)

permission_word_bits_above :
    (n : ℕ)
    → 9 ≤ n
    → (has_bit 0o111 n ≡ (n == 0 || n == 3 || n == 6))
      × (has_bit 0o222 n ≡ (n == 1 || n == 4 || n == 7))
      × (has_bit 0o444 n ≡ (n == 2 || n == 5 || n == 8))
permission_word_bits_above n h = (
  rw (has_bit-above 9 n 0o111 (omega arith) (omega arith)) (ground arith),
  rw (has_bit-above 9 n 0o222 (omega arith) (omega arith)) (ground arith),
  rw (has_bit-above 9 n 0o444 (omega arith) (omega arith)) (ground arith),
)

-- The words of the three classes and of the three permissions, bit by bit.
class_bits :
    (n : ℕ)
    → (has_bit 0o700 n ≡ (leb 6 n && leb n 8))
      × (has_bit 0o070 n ≡ (leb 3 n && leb n 5))
      × (has_bit 0o007 n ≡ leb n 2)
      × (has_bit 0o777 n ≡ leb n 8)
unfolding has_bit
class_bits zero = (refl, refl, refl, refl)
class_bits (suc zero) = (refl, refl, refl, refl)
class_bits (suc (suc zero)) = (refl, refl, refl, refl)
class_bits (suc (suc (suc zero))) = (refl, refl, refl, refl)
class_bits (suc (suc (suc (suc zero)))) = (refl, refl, refl, refl)
class_bits (suc (suc (suc (suc (suc zero))))) = (refl, refl, refl, refl)
class_bits (suc (suc (suc (suc (suc (suc zero)))))) = (refl, refl, refl, refl)
class_bits (suc (suc (suc (suc (suc (suc (suc zero))))))) = (refl, refl, refl, refl)
class_bits (suc (suc (suc (suc (suc (suc (suc (suc zero)))))))) = (refl, refl, refl, refl)
class_bits (suc (suc (suc (suc (suc (suc (suc (suc (suc n))))))))) =
    class_bits_above (suc (suc (suc (suc (suc (suc (suc (suc (suc n))))))))) (omega arith)

permission_word_bits :
    (n : ℕ)
    → (has_bit 0o111 n ≡ (n == 0 || n == 3 || n == 6))
      × (has_bit 0o222 n ≡ (n == 1 || n == 4 || n == 7))
      × (has_bit 0o444 n ≡ (n == 2 || n == 5 || n == 8))
unfolding has_bit
permission_word_bits zero = (refl, refl, refl)
permission_word_bits (suc zero) = (refl, refl, refl)
permission_word_bits (suc (suc zero)) = (refl, refl, refl)
permission_word_bits (suc (suc (suc zero))) = (refl, refl, refl)
permission_word_bits (suc (suc (suc (suc zero)))) = (refl, refl, refl)
permission_word_bits (suc (suc (suc (suc (suc zero))))) = (refl, refl, refl)
permission_word_bits (suc (suc (suc (suc (suc (suc zero)))))) = (refl, refl, refl)
permission_word_bits (suc (suc (suc (suc (suc (suc (suc zero))))))) = (refl, refl, refl)
permission_word_bits (suc (suc (suc (suc (suc (suc (suc (suc zero)))))))) = (refl, refl, refl)
permission_word_bits (suc (suc (suc (suc (suc (suc (suc (suc (suc n))))))))) =
    permission_word_bits_above (suc (suc (suc (suc (suc (suc (suc (suc (suc n))))))))) (omega arith)

pub initial_bits : (n : ℕ) → has_bit 0o660 n ≡ (n == 4 || n == 5 || n == 7 || n == 8)
unfolding has_bit
initial_bits zero = refl
initial_bits (suc zero) = refl
initial_bits (suc (suc zero)) = refl
initial_bits (suc (suc (suc zero))) = refl
initial_bits (suc (suc (suc (suc zero)))) = refl
initial_bits (suc (suc (suc (suc (suc zero))))) = refl
initial_bits (suc (suc (suc (suc (suc (suc zero)))))) = refl
initial_bits (suc (suc (suc (suc (suc (suc (suc zero))))))) = refl
initial_bits (suc (suc (suc (suc (suc (suc (suc (suc zero)))))))) = refl
initial_bits (suc (suc (suc (suc (suc (suc (suc (suc (suc n))))))))) =
    rw
      (has_bit-above 9 (suc (suc (suc (suc (suc (suc (suc (suc (suc n))))))))) 0o660 (omega arith)
        (omega arith))
      (ground arith)

pub who_bits-names_class : (c n w : ℕ) → who_bits c ≡ some w → has_bit w n ≡ names_class c n
unfolding who_bits
who_bits-names_class c n w h = ground (arith, class_bits n)

pub permission_bits-grants : (c n w : ℕ) → permission_bits c ≡ some w → has_bit w n ≡ grants c n
unfolding permission_bits
permission_bits-grants c n w h = ground (arith, permission_word_bits n)

or_assoc : (a b c : Bool) → ((a || b) || c) ≡ (a || (b || c))
or_assoc true b c = refl
or_assoc false b c = refl

module _ (bits : ℕ → Option ℕ) (names : ℕ → ℕ → Bool) (n : ℕ)
    (meaning : (c w : ℕ) → bits c ≡ some w → has_bit w n ≡ names c n) where
  gather-any :
      (acc : ℕ) (s : Text) {w : ℕ}
      → gather bits acc s ≡ some w
      → has_bit w n ≡ (has_bit acc n || any (λ c. names c n) s)
  unfolding gather
  gather-any acc [] h = ground arith
  gather-any acc (c ∷ s) {w} h = elim (Option-cases (bits c)) [
    | inl none_of ↦ let stuck : none ≡ some w = rw (gather, none_of) at h in cc
    | inr (word, found) ↦
        let rest : gather bits (bit_or acc word) s ≡ some w = rw (gather, found) at h in
        rw (gather-any (bit_or acc word) s rest, has_bit-bit_or acc word n, meaning c word found)
          (or_assoc (has_bit acc n) (names c n) (any (λ d. names d n) s))
  ]

  pub gather-word :
      (s : Text) {w : ℕ} → gather bits 0 s ≡ some w → has_bit w n ≡ any (λ c. names c n) s
  gather-word s h = ground (arith, gather-any 0 s h, has_bit-none n)
