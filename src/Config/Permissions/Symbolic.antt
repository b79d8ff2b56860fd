-- ===== src/Config/Permissions/Symbolic.antt =====
-- What a symbolic mode means for each permission bit.
use ooth.Prelude.{
  ℕ, ◌≡◌, refl, inl, inr, Bool, not, ◌||◌, ◌&&◌, Option, none, some, List, [], ◌∷◌, ◌==◌,
  if◌then◌else◌, arith, Option-cases,
}
use Prim.Native.Nat.{bit_and}
use ooth.Prelude.Texts.{Text, split}
use ooth.Prelude.Bits.{has_bit, has_bit-bit_or, has_bit-bit_and, has_bit-and_not, and_not}
use ooth.Config.Permissions.{
  Clause, cut_clause, who_bits, permission_bits, gather, apply_operator, apply_words, apply_clause,
  apply_clauses, parse_permissions, parse_octal, trim_prefix,
}
use ooth.Config.Permissions.Masks.{
  names_class, grants, bit_after, initial_bits, who_bits-names_class, permission_bits-grants,
  gather-word,
}

-- The operators of a clause, on one bit.
apply_operator-bits :
    (operator mask bits mode n : ℕ)
    → has_bit (apply_operator operator mask (bit_and bits mask) mode) n ≡ (
        if operator == b'='
        then (has_bit mask n && has_bit bits n) || (has_bit mode n && not (has_bit mask n))
        else if operator == b'+'
        then has_bit mode n || (has_bit mask n && has_bit bits n)
        else has_bit mode n && not (has_bit mask n && has_bit bits n))
unfolding apply_operator
apply_operator-bits operator mask bits mode n = ground (
  arith,
  has_bit-bit_or (and_not mode mask) (bit_and bits mask) n,
  has_bit-bit_or mode (bit_and bits mask) n,
  has_bit-and_not mode (bit_and bits mask) n,
  has_bit-and_not mode mask n,
  has_bit-bit_and bits mask n,
)

-- The clauses one after the other; one without an operator would change nothing.
abbrev pub bit_after_cut : Option Clause → ℕ → Bool → Bool
bit_after_cut none n old = old
bit_after_cut (some clause) n old = bit_after clause n old

abbrev pub bit_after_all : List Text → ℕ → Bool → Bool
bit_after_all [] n old = old
bit_after_all (clause ∷ rest) n old = bit_after_all rest n (bit_after_cut (cut_clause clause) n old)

apply_words-some :
    (operator : ℕ) (mask bits : Option ℕ) (mode : ℕ) {w : ℕ}
    → apply_words operator mask bits mode ≡ some w
    → (m b : ℕ) × (mask ≡ some m)
      × (bits ≡ some b)
      × (w ≡ apply_operator operator m (bit_and b m) mode)
unfolding apply_words
apply_words-some operator none bits mode h = cc
apply_words-some operator (some m) none mode h = cc
apply_words-some operator (some m) (some b) mode h = (m, b, refl, refl, ground arith)

apply_clause-words :
    (clause : Clause) (mode : ℕ) {w : ℕ}
    → apply_clause (some clause) mode ≡ some w
    → apply_words clause.operator
        (gather who_bits 0 clause.who)
        (gather permission_bits 0 clause.granted)
        mode
      ≡ some w
unfolding apply_clause
apply_clause-words clause mode h = ground arith

apply_clause-bit_after :
    (clause : Clause) (mode n : ℕ) {w : ℕ}
    → apply_clause (some clause) mode ≡ some w
    → has_bit w n ≡ bit_after clause n (has_bit mode n)
apply_clause-bit_after clause mode n {w} h =
    let (m, b, masked, granted, result) =
      apply_words-some clause.operator (gather who_bits 0 clause.who)
        (gather permission_bits 0 clause.granted) mode (apply_clause-words clause mode h) in
    rw
      (
        result,
        apply_operator-bits clause.operator m b mode n,
        gather-word who_bits names_class n (λ c. who_bits-names_class c n) clause.who masked,
        gather-word permission_bits grants n (λ c. permission_bits-grants c n) clause.granted
            granted,
      )
      refl

apply_cut-bit_after :
    (cut : Option Clause) (mode n : ℕ) {w : ℕ}
    → apply_clause cut mode ≡ some w
    → has_bit w n ≡ bit_after_cut cut n (has_bit mode n)
unfolding apply_clause
apply_cut-bit_after none mode n h = cc
apply_cut-bit_after (some clause) mode n h = apply_clause-bit_after clause mode n h

apply_clauses-bit_after_all :
    (clauses : List Text) (mode n : ℕ) {w : ℕ}
    → apply_clauses clauses mode ≡ some w
    → has_bit w n ≡ bit_after_all clauses n (has_bit mode n)
unfolding apply_clauses
apply_clauses-bit_after_all [] mode n h = ground arith
apply_clauses-bit_after_all (clause ∷ rest) mode n {w} h =
    elim (Option-cases (apply_clause (cut_clause clause) mode)) [
      | inl failed ↦ let stuck : none ≡ some w = rw (apply_clauses, failed) at h in cc
      | inr (mode', e) ↦
          let tail : apply_clauses rest mode' ≡ some w = rw (apply_clauses, e) at h in
          rw (← (apply_cut-bit_after (cut_clause clause) mode n e))
            (apply_clauses-bit_after_all rest mode' n tail)
    ]

-- A mode that is not octal digits, with or without `0o`, and is accepted has exactly the bits that its
-- clauses leave, applied in their order to the mode 0660, whose bits are those of reading and writing
-- for the owner and the group.
pub parse_permissions-bit_after_all :
    (value : Text) (n : ℕ) {mode : ℕ}
    → parse_octal (trim_prefix value) ≡ none
    → parse_permissions value ≡ some mode
    → has_bit mode n ≡ bit_after_all (split b',' value) n (n == 4 || n == 5 || n == 7 || n == 8)
unfolding parse_permissions
parse_permissions-bit_after_all value n {mode} symbolic h =
    let applied : apply_clauses (split b',' value) 0o660 ≡ some mode =
      rw (parse_permissions, symbolic) at h in
    rw (← (initial_bits n)) (apply_clauses-bit_after_all (split b',' value) 0o660 n applied)
