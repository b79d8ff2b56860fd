-- ===== src/Prelude/Bits.antt =====
-- Sets of small numbers as the bits of a word: the laws of `|=` and of the test `mask & (1 << n)`.
use Prim.Native.Nat.{ℕ, zero, suc, ◌+◌, ◌-◌, ◌*◌, ◌<◌, ◌/◌, ◌%◌, ◌^◌, ◌≤◌, min, max}
use Prim.Native.Nat.{bit_and, bit_or, digits, bitwise, bit_and-bitwise, bit_or-bitwise}
use mathlib.Core.Path.{◌≡◌, refl}
use mathlib.Core.Bool.{Bool, false, not, ◌||◌, ◌&&◌}
use native.Mathlib.Omega.{arith}
use native.Mathlib.Nat.{pow-suc}
use ooth.Prelude.Tests.{◌==◌}

-- The definition behind the native operations runs on fuel: more fuel than the number changes nothing.
module _ (left : ℕ → ℕ) (join : ℕ → ℕ → ℕ) where
  enough : (n m a b : ℕ) → a ≤ m → a ≤ n → digits left join m a b ≡ digits left join n a b
  enough zero zero a b p q = refl
  enough zero (suc m) zero b p q = refl
  enough zero (suc m) (suc a) b p q = elim q [ ]
  enough (suc n) zero zero b p q = refl
  enough (suc n) zero (suc a) b p q = elim p [ ]
  enough (suc n) (suc m) zero b p q = refl
  enough (suc n) (suc m) (suc a) b p q =
      rw (enough n m (suc a / 2) (b / 2) (omega arith) (omega arith))

  lowest :
      (a b : ℕ)
      → bitwise left join (suc a) b
        ≡ join (suc a % 2) (b % 2) + bitwise left join (suc a / 2) (b / 2) * 2
  lowest a b = omega (arith, enough a (suc a / 2) (suc a / 2) (b / 2) (omega arith) (omega arith))

bit_or_halves : (a b : ℕ) → bit_or a b ≡ max (a % 2) (b % 2) + bit_or (a / 2) (b / 2) * 2
bit_or_halves zero b = simp bit_or-bitwise (omega arith)
bit_or_halves (suc a) b = simp bit_or-bitwise (lowest (λ r. r) max a b)

bit_and_halves : (a b : ℕ) → bit_and a b ≡ min (a % 2) (b % 2) + bit_and (a / 2) (b / 2) * 2
bit_and_halves zero b = simp bit_and-bitwise (omega arith)
bit_and_halves (suc a) b = simp bit_and-bitwise (lowest (λ r. 0) min a b)

bit_and-zero : (k a : ℕ) → a ≤ k → bit_and a 0 ≡ 0
bit_and-zero zero zero h = refl
bit_and-zero zero (suc a) h = elim h [ ]
bit_and-zero (suc k) zero h = refl
bit_and-zero (suc k) (suc a) h =
    omega (arith, bit_and_halves (suc a) 0, bit_and-zero k (suc a / 2) (omega arith))

-- `mask & (1 << n) != 0`
unfoldable pub has_bit : ℕ → ℕ → Bool
has_bit mask n = not (bit_and mask (2 ^ n) == 0)

pub has_bit-zero : (mask : ℕ) → has_bit mask 0 ≡ (mask % 2 == 1)
unfolding has_bit
has_bit-zero mask =
    ground (arith, bit_and_halves mask 1, bit_and-zero (mask / 2) (mask / 2) (omega arith))

pub has_bit-suc : (mask n : ℕ) → has_bit mask (suc n) ≡ has_bit (mask / 2) n
unfolding has_bit
has_bit-suc mask n = ground (arith, bit_and_halves mask (2 ^ suc n), pow-suc 2 n, twice)
  where
    twice : (2 ^ suc n / 2 ≡ 2 ^ n) × (2 ^ suc n % 2 ≡ 0)
    twice = (omega (arith, pow-suc 2 n), omega (arith, pow-suc 2 n))

pub has_bit-bit_or : (a b n : ℕ) → has_bit (bit_or a b) n ≡ (has_bit a n || has_bit b n)
has_bit-bit_or a b zero =
    ground (arith, has_bit-zero a, has_bit-zero b, has_bit-zero (bit_or a b), bit_or_halves a b)
has_bit-bit_or a b (suc n) =
    let half : bit_or a b / 2 ≡ bit_or (a / 2) (b / 2) = omega (arith, bit_or_halves a b) in
    rw (has_bit-suc (bit_or a b) n, has_bit-suc a n, has_bit-suc b n, half)
      (has_bit-bit_or (a / 2) (b / 2) n)

pub has_bit-none : (n : ℕ) → has_bit 0 n ≡ false
unfolding has_bit
has_bit-none n = rw (bit_and-bitwise 0 (2 ^ n))

-- The word `1 << k` has bit k and no other.
pub has_bit-pow : (k n : ℕ) → has_bit (2 ^ k) n ≡ (k == n)
has_bit-pow zero zero = rw has_bit-zero refl
has_bit-pow zero (suc n) = rw (has_bit-suc, has_bit-none) (ground arith)
has_bit-pow (suc k) zero = rw has_bit-zero (ground (arith, pow-suc 2 k))
has_bit-pow (suc k) (suc n) =
    let half : 2 ^ suc k / 2 ≡ 2 ^ k = omega (arith, pow-suc 2 k) in
    rw (has_bit-suc, half, has_bit-pow k n) (ground arith)

zero-bit_and : (b : ℕ) → bit_and 0 b ≡ 0
zero-bit_and b = bit_and-bitwise 0 b

bit_and-le : (k a b : ℕ) → a ≤ k → bit_and a b ≤ a
bit_and-le k zero b h = omega (arith, zero-bit_and b)
bit_and-le zero (suc a) b h = absurd (omega arith)
bit_and-le (suc k) (suc a) b h =
    omega (arith, bit_and_halves (suc a) b, bit_and-le k (suc a / 2) (b / 2) (omega arith))

pub has_bit-bit_and : (a b n : ℕ) → has_bit (bit_and a b) n ≡ (has_bit a n && has_bit b n)
has_bit-bit_and a b zero =
    ground (arith, has_bit-zero a, has_bit-zero b, has_bit-zero (bit_and a b), bit_and_halves a b)
has_bit-bit_and a b (suc n) =
    let half : bit_and a b / 2 ≡ bit_and (a / 2) (b / 2) = omega (arith, bit_and_halves a b) in
    rw (has_bit-suc (bit_and a b) n, has_bit-suc a n, has_bit-suc b n, half)
      (has_bit-bit_and (a / 2) (b / 2) n)

-- `a &^ b`
unfoldable pub and_not : ℕ → ℕ → ℕ
and_not a b = a - bit_and a b

pub has_bit-and_not : (a b n : ℕ) → has_bit (and_not a b) n ≡ (has_bit a n && not (has_bit b n))
unfolding and_not
has_bit-and_not a b zero = ground (
  arith,
  has_bit-zero a,
  has_bit-zero b,
  has_bit-zero (a - bit_and a b),
  bit_and_halves a b,
  bit_and-le (a / 2) (a / 2) (b / 2) (omega arith),
)
has_bit-and_not a b (suc n) =
    let half : (a - bit_and a b) / 2 ≡ a / 2 - bit_and (a / 2) (b / 2) =
      omega (arith, bit_and_halves a b, bit_and-le (a / 2) (a / 2) (b / 2) (omega arith)) in
    rw (has_bit-suc (a - bit_and a b) n, has_bit-suc a n, has_bit-suc b n, half)
      (has_bit-and_not (a / 2) (b / 2) n)

-- Words below a power of two: their bits, and what the operations keep.
pub has_bit-above : (k n mask : ℕ) → mask < 2 ^ k → k ≤ n → has_bit mask n ≡ false
has_bit-above zero n mask h g = let none : mask ≡ 0 = omega arith in rw none (has_bit-none n)
has_bit-above (suc k) zero mask h g = absurd (omega arith)
has_bit-above (suc k) (suc n) mask h g =
    rw (has_bit-suc mask n)
      (has_bit-above k n (mask / 2) (omega (arith, pow-suc 2 k)) (omega arith))

pub bit_or-lt : (k a b : ℕ) → a < 2 ^ k → b < 2 ^ k → bit_or a b < 2 ^ k
bit_or-lt zero a b h g =
    let za : a ≡ 0 = omega arith in
    let zb : b ≡ 0 = omega arith in rw (za, zb) (omega (arith, bit_or-bitwise 0 0))
bit_or-lt (suc k) a b h g = omega (
  arith,
  bit_or_halves a b,
  pow-suc 2 k,
  bit_or-lt k (a / 2) (b / 2) (omega (arith, pow-suc 2 k)) (omega (arith, pow-suc 2 k)),
)

pub and_not-le : (a b : ℕ) → and_not a b ≤ a
unfolding and_not
and_not-le a b = omega arith

pub bit_and-le_left : (a b : ℕ) → bit_and a b ≤ a
bit_and-le_left a b = bit_and-le a a b (omega arith)
