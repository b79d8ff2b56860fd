-- ===== src/Schedule/Marks.antt =====
-- What `mark`, the loop of `cronField`, leaves in the mask.
use ooth.Prelude.{
  ℕ, zero, suc, ◌+◌, ◌-◌, ◌*◌, ◌^◌, ◌≤◌, ◌<◌, ◌≡◌, refl, ◌↔◌, ◌⊎◌, inl, inr, Bool, true, false,
  ◌||◌, ltb, ltb→lt, ◌==◌, ==_iff, Bool-cases, arith,
}
use ooth.Prelude.Bits.{has_bit, has_bit-bit_or, has_bit-pow}
use ooth.Schedule.Field.{Span, mark, mark_span, shifted}
use mathlib.Core.Bool.{false≢true}
use native.Mathlib.Nat.{mod-eq_of_lt, pow-le-pow_right, pow-suc, one-le-pow}
use Prim.Native.Nat.{bit_or}

-- `n` is `first`, `first + step`, … and not above `last`.
abbrev pub Reaches : ℕ → ℕ → ℕ → ℕ → Type 0
Reaches first last step n = (q : ℕ) × (n ≡ first + q * step) × (n ≤ last)

shifted-pow : (k : ℕ) → k < 64 → shifted k ≡ 2 ^ k
shifted-pow k h = mod-eq_of_lt (
    omega (
      arith,
      pow-suc 2 k,
      one-le-pow k 2 (omega arith),
      pow-le-pow_right {n = 2} (omega arith) {i = suc k} {j = 64} (omega arith),
    ))

or_eq_iff : (b : Bool) (k n : ℕ) → ((b || (k == n)) ≡ true) ↔ ((b ≡ true) ⊎ (k ≡ n))
or_eq_iff true k n = (λ h. inl refl, λ s. refl)
or_eq_iff false k n =
    (λ h. inr ((==_iff k n).0 h), elim [ inl h ↦ absurd (false≢true h) | inr e ↦ (==_iff k n).1 e ])

-- One `|=` adds one number.
abbrev AddsOne : ℕ → ℕ → ℕ → Type 0
AddsOne mask k n =
    (has_bit (bit_or mask (shifted k)) n ≡ true) ↔ ((has_bit mask n ≡ true) ⊎ (k ≡ n))

marked-AddsOne : (mask k n : ℕ) → k < 64 → AddsOne mask k n
marked-AddsOne mask k n h =
    rw (shifted-pow k h, has_bit-bit_or, has_bit-pow) (or_eq_iff (has_bit mask n) k n)

abbrev Marked : ℕ → ℕ → ℕ → ℕ → ℕ → ℕ → Type 0
Marked number last step mask n result =
    (has_bit result n ≡ true) ↔ ((has_bit mask n ≡ true) ⊎ Reaches number last step n)

Reaches-past : (number last step n : ℕ) → last < number → ¬ Reaches number last step n
Reaches-past number last step n h (q, e, b) = omega arith

Reaches-here : (number last step n : ℕ) → number ≤ last → number ≡ n → Reaches number last step n
Reaches-here number last step n h e = (0, omega arith, omega arith)

-- A run is its first number and the run from the next one.
Reaches-next :
    (number last step n : ℕ) → Reaches (number + step) last step n → Reaches number last step n
Reaches-next number last step n (q, e, b) = (suc q, grind arith, b)

Reaches-inv :
    (number last step n : ℕ)
    → Reaches number last step n
    → (number ≡ n) ⊎ Reaches (number + step) last step n
Reaches-inv number last step n (zero, e, b) = inl (omega arith)
Reaches-inv number last step n (suc q, e, b) = inr (q, grind arith, b)

Reaches-last :
    (number last step n : ℕ) → last < number + step → Reaches number last step n → number ≡ n
Reaches-last number last step n h (zero, e, b) = omega arith
Reaches-last number last step n h (suc q, e, b) = absurd (grind arith)

-- The round that leaves the loop, and one that goes on.
mark_final :
    (number last step mask n : ℕ)
    → number ≤ last
    → last < number + step
    → AddsOne mask number n
    → Marked number last step mask n (bit_or mask (shifted number))
mark_final number last step mask n h e one = (
  λ b. elim (one.0 b) [ inl old ↦ inl old | inr k ↦ inr (Reaches-here number last step n h k) ],
  elim [ inl old ↦ one.1 (inl old) | inr r ↦ one.1 (inr (Reaches-last number last step n e r)) ],
)

mark_more :
    (number last step mask n result : ℕ)
    → number ≤ last
    → AddsOne mask number n
    → Marked (number + step) last step (bit_or mask (shifted number)) n result
    → Marked number last step mask n result
mark_more number last step mask n result h one ih = (
  λ b. elim (ih.0 b) [
    | inl marked ↦ elim (one.0 marked) [
      | inl old ↦ inl old
      | inr k ↦ inr (Reaches-here number last step n h k)
    ]
    | inr r ↦ inr (Reaches-next number last step n r)
  ],
  elim [
    | inl old ↦ ih.1 (inl (one.1 (inl old)))
    | inr r ↦ elim (Reaches-inv number last step n r) [
      | inl k ↦ ih.1 (inl (one.1 (inr k)))
      | inr later ↦ ih.1 (inr later)
    ]
  ],
)

mark-Marked :
    (fuel number last step mask n : ℕ)
    → last < 64
    → 0 < step
    → last < fuel + number
    → Marked number last step mask n (mark fuel number last step mask)
unfolding mark
mark-Marked zero number last step mask n small positive enough = (
  inl,
  λ s. elim s [ inl h ↦ h | inr r ↦ absurd (Reaches-past number last step n (omega arith) r) ],
)
mark-Marked (suc fuel) number last step mask n small positive enough =
    elim (Bool-cases (ltb last number)) [
      | inl past ↦ rw past (
        inl,
        λ s. elim s [
          | inl h ↦ h
          | inr r ↦ absurd (Reaches-past number last step n (ltb→lt _ _ past) r)
        ],
      )
      | inr within ↦
          let one = marked-AddsOne mask number n (ground arith) in
          elim (Bool-cases (ltb (last - number) step)) [
            | inl final ↦
                rw (within, final)
                  (mark_final number last step mask n (ground arith) (ground arith) one)
            | inr more ↦
                rw (within, more)
                  (mark_more number last step mask n _ (ground arith) one (
                    mark-Marked fuel (number + step) last step (bit_or mask (shifted number)) n
                      small positive (omega arith)))
          ]
    ]

-- A span adds the numbers that it reaches, and no other.
pub mark_span-Marked :
    (s : Span) (mask n : ℕ)
    → s.last < 64
    → 0 < s.step
    → (has_bit (mark_span s mask) n ≡ true)
      ↔ ((has_bit mask n ≡ true) ⊎ Reaches s.first s.last s.step n)
unfolding mark_span
mark_span-Marked s mask n small positive =
    mark-Marked (suc s.last - s.first) s.first s.last s.step mask n small positive (omega arith)
