-- ===== src/Config/Permissions.antt =====
-- `Permissions`: `parsePermissions`, and both directions of its YAML form. A symbolic mode is a list of
-- clauses such as `g=rw`, which are applied to 0660 one after the other.
pub mod Masks
pub mod Symbolic
pub mod Octal
use ooth.Prelude.{
  ℕ, zero, suc, ◌+◌, ◌-◌, ◌*◌, ◌/◌, ◌%◌, ◌^◌, Bool, ◌||◌, ◌&&◌, Option, none, some, List, [], ◌∷◌,
  ◌++◌, leb, ltb, ◌==◌, if◌then◌else◌, length,
}
use Prim.Native.Nat.{bit_and, bit_or}
use ooth.Prelude.Signed.{ℤ, pos, negsuc}
use ooth.Prelude.Texts.{Text, codes, split, starts_with}
use ooth.Prelude.Bits.{and_not}

-- strconv.ParseUint(s, 8, 32)
unfoldable pub octal_value : ℕ → Text → Option ℕ
octal_value acc [] = some acc
octal_value acc (c ∷ s) =
    let rest = octal_value (acc * 8 + (c - b'0')) s in
    if leb b'0' c && leb c b'7' then rest else none

unfoldable pub in_uint32 : Option ℕ → Option ℕ
in_uint32 none = none
in_uint32 (some n) = if ltb n (2 ^ 32) then some n else none

unfoldable pub parse_octal : Text → Option ℕ
parse_octal [] = none
parse_octal (c ∷ s) = in_uint32 (octal_value 0 (c ∷ s))

-- strings.TrimPrefix(value, "0o")
unfoldable pub trim_prefix : Text → Text
trim_prefix (c ∷ d ∷ s) = if c == b'0' && d == b'o' then s else c ∷ d ∷ s
trim_prefix s = s

pub record Clause : Type 0 where
  pub who : Text
  pub operator : ℕ
  pub granted : Text

abbrev pub is_operator : ℕ → Bool
is_operator c = c == b'=' || c == b'+' || c == b'-'

abbrev with_who : ℕ → Option Clause → Option Clause
with_who c none = none
with_who c (some clause) = some (record clause { who = c ∷ clause.who })

-- strings.IndexAny(clause, "=+-"), and the parts around it; `none` where there is no operator.
unfoldable pub cut_clause : Text → Option Clause
cut_clause [] = none
cut_clause (c ∷ s) =
    if is_operator c
    then some (record { who = []; operator = c; granted = s })
    else with_who c (cut_clause s)

unfoldable pub who_bits : ℕ → Option ℕ
who_bits c =
    if c == b'u'
    then some 0o700
    else if c == b'g'
    then some 0o070
    else if c == b'o'
    then some 0o007
    else if c == b'a'
    then some 0o777
    else none

unfoldable pub permission_bits : ℕ → Option ℕ
permission_bits c =
    if c == b'r'
    then some 0o444
    else if c == b'w'
    then some 0o222
    else if c == b'x'
    then some 0o111
    else none

-- The two loops over a clause: `word |= bits`, or an unknown letter.
unfoldable pub gather : (ℕ → Option ℕ) → ℕ → Text → Option ℕ
gather bits acc [] = some acc
gather bits acc (c ∷ s) = elim (bits c) [
  | none ↦ none
  | some word ↦ gather bits (bit_or acc word) s
]

unfoldable pub apply_operator : ℕ → ℕ → ℕ → ℕ → ℕ
apply_operator operator mask bits mode =
    if operator == b'='
    then bit_or (and_not mode mask) bits
    else if operator == b'+'
    then bit_or mode bits
    else and_not mode bits

unfoldable pub apply_words : ℕ → Option ℕ → Option ℕ → ℕ → Option ℕ
apply_words operator (some mask) (some bits) mode =
    some (apply_operator operator mask (bit_and bits mask) mode)
apply_words operator _ _ mode = none

-- A clause whose operator is its first character is invalid.
unfoldable pub apply_clause : Option Clause → ℕ → Option ℕ
apply_clause none mode = none
apply_clause (some clause) mode = elim clause.who [
  | [] ↦ none
  | c ∷ s ↦
      apply_words clause.operator (gather who_bits 0 clause.who)
        (gather permission_bits 0 clause.granted) mode
]

unfoldable pub apply_clauses : List Text → ℕ → Option ℕ
apply_clauses [] mode = some mode
apply_clauses (clause ∷ rest) mode = elim (apply_clause (cut_clause clause) mode) [
  | none ↦ none
  | some mode' ↦ apply_clauses rest mode'
]

unfoldable pub parse_permissions : Text → Option ℕ
parse_permissions value = elim (parse_octal (trim_prefix value)) [
  | some bits ↦ some bits
  | none ↦ apply_clauses (split b',' value) 0o660
]

-- What the YAML library hands over.
pub data YamlValue : Type 0 where
  unsigned : ℕ → YamlValue
  signed : ℤ → YamlValue
  text : Text → YamlValue
  other : YamlValue

-- `uint64(value)`
abbrev pub as_uint64 : ℤ → ℕ
as_uint64 (pos n) = n
as_uint64 (negsuc n) = 2 ^ 64 - suc n

unfoldable pub raw_mode : YamlValue → Option ℕ
raw_mode (unsigned n) = some n
raw_mode (signed n) = some (as_uint64 n)
raw_mode (text value) = parse_permissions value
raw_mode other = none

unfoldable pub unmarshal_mode : YamlValue → Option ℕ
unmarshal_mode value = elim (raw_mode value) [
  | none ↦ none
  | some bits ↦ if ltb 0o777 bits then none else some bits
]

-- `%04o`: octal digits, on as much fuel as the number, after zeros up to four.
unfoldable pub octal_digits : ℕ → ℕ → Text → Text
octal_digits zero n rest = rest
octal_digits (suc fuel) n rest =
    let more = octal_digits fuel (n / 8) ((b'0' + n % 8) ∷ rest) in
    if n / 8 == 0 then (b'0' + n % 8) ∷ rest else more

unfoldable pub zeros : ℕ → Text → Text
zeros zero s = s
zeros (suc n) s = b'0' ∷ zeros n s

unfoldable pub marshal_mode : ℕ → Text
marshal_mode mode = let digits = octal_digits (suc mode) mode [] in zeros (4 - length digits) digits
