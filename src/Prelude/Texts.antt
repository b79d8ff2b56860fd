-- ===== src/Prelude/Texts.antt =====
-- Go strings as lists of code points, and the functions of `strings` and `strconv` that the program
-- calls on them.
use Prim.Native.Nat.{ℕ, zero, suc, ◌+◌, ◌*◌, ◌-◌, ◌^◌}
use Prim.Native.Char.{code}
use Prim.Native.String.{String}
use mathlib.Core.Path.{◌≡◌, refl}
use mathlib.Core.Logic.{◌↔◌}
use mathlib.Core.Bool.{Bool, true, false, ◌&&◌, ◌||◌}
use mathlib.Core.List.{List, [], ◌∷◌}
use mathlib.Core.Option.{Option, none, some}
use mathlib.Core.Option
use native.Mathlib.Omega.{arith}
use ooth.Prelude.Tests.{ltb, leb, ◌==◌, if◌then◌else◌}
use ooth.Prelude.Lists.{any}
use ooth.Prelude.Signed.{ℤ, pos, negsuc}

abbrev pub Text : Type 0
Text = List ℕ

abbrev pub codes : String → Text
codes String.[] = []
codes (String.◌∷◌ c s) = code c ∷ codes s

abbrev pub text_eq : Text → Text → Bool
text_eq [] [] = true
text_eq [] (d ∷ t) = false
text_eq (c ∷ s) [] = false
text_eq (c ∷ s) (d ∷ t) = c == d && text_eq s t

pub text_eq_iff : (s t : Text) → (text_eq s t ≡ true) ↔ (s ≡ t)
text_eq_iff [] [] = ground arith
text_eq_iff [] (d ∷ t) = ground arith
text_eq_iff (c ∷ s) [] = ground arith
text_eq_iff (c ∷ s) (d ∷ t) = ground (arith, text_eq_iff s t)

pub text_eq_refl : (s : Text) → text_eq s s ≡ true
text_eq_refl s = (text_eq_iff s s).1 refl

-- slices.Contains
abbrev pub contains : List Text → Text → Bool
contains l s = any (text_eq s) l

-- unicode.IsSpace
unfoldable pub is_space : ℕ → Bool
is_space c =
    (leb 9 c && leb c 13)
    || c == 32
    || c == 0x85
    || c == 0xA0
    || c == 0x1680
    || (leb 0x2000 c && leb c 0x200A)
    || c == 0x2028
    || c == 0x2029
    || c == 0x202F
    || c == 0x205F
    || c == 0x3000

-- strings.Split at one separator: the first part, and the others.
unfoldable pub split_parts : ℕ → Text → Text × List Text
split_parts sep [] = ([], [])
split_parts sep (c ∷ s) =
    let (w, ws) = split_parts sep s in if c == sep then ([], w ∷ ws) else (c ∷ w, ws)

unfoldable pub split : ℕ → Text → List Text
unfolding split_parts
split sep s = let (w, ws) = split_parts sep s in w ∷ ws

-- strings.Fields: the maximal runs without white space.
unfoldable pub push_word : Text → List Text → List Text
push_word [] ws = ws
push_word (c ∷ w) ws = (c ∷ w) ∷ ws

unfoldable pub field_parts : Text → Text × List Text
unfolding is_space push_word
field_parts [] = ([], [])
field_parts (c ∷ s) =
    let (w, ws) = field_parts s in if is_space c then ([], push_word w ws) else (c ∷ w, ws)

unfoldable pub fields : Text → List Text
unfolding field_parts push_word
fields s = let (w, ws) = field_parts s in push_word w ws

-- strings.Cut at one separator; `none` where it does not occur.
unfoldable pub cut : ℕ → Text → Option (Text × Text)
cut sep [] = none
cut sep (c ∷ s) = if c == sep then some ([], s) else Option.map (λ p. (c ∷ p.0, p.1)) (cut sep s)

unfoldable pub starts_with : Text → Text → Bool
starts_with [] s = true
starts_with (p ∷ ps) [] = false
starts_with (p ∷ ps) (c ∷ s) = p == c && starts_with ps s

-- strings.Contains
unfoldable pub contains_text : Text → Text → Bool
contains_text part [] = starts_with part []
contains_text part (c ∷ s) = starts_with part (c ∷ s) || contains_text part s

-- strings.CutPrefix; `none` where the text does not start so.
unfoldable pub after_prefix : Text → Text → Option Text
after_prefix [] s = some s
after_prefix (p ∷ ps) [] = none
after_prefix (p ∷ ps) (c ∷ s) = if p == c then after_prefix ps s else none

-- strings.Cut at a separator that is not empty.
unfoldable pub cut_text : Text → Text → Option (Text × Text)
cut_text sep [] = none
cut_text sep (c ∷ s) = elim (after_prefix sep (c ∷ s)) [
  | some rest ↦ some ([], rest)
  | none ↦ Option.map (λ p. (c ∷ p.0, p.1)) (cut_text sep s)
]

unfoldable pub is_digit : ℕ → Bool
is_digit c = leb b'0' c && leb c b'9'

-- strconv.Atoi, and ParseInt(s, 10, 64): an optional sign, digits, and the range of int64.
unfoldable pub digits_value : ℕ → Text → Option ℕ
unfolding is_digit
digits_value acc [] = some acc
digits_value acc (c ∷ s) =
    let rest = digits_value (acc * 10 + (c - b'0')) s in if is_digit c then rest else none

unfoldable pub unsigned : Text → Option ℕ
unfolding digits_value
unsigned [] = none
unsigned (c ∷ s) = digits_value 0 (c ∷ s)

unfoldable pub in_int64 : ℕ → Option ℤ
in_int64 n = if ltb n (2 ^ 63) then some (pos n) else none

unfoldable pub negated : ℕ → Option ℤ
negated zero = some (pos 0)
negated (suc n) = if ltb n (2 ^ 63) then some (negsuc n) else none

unfoldable pub atoi : Text → Option ℤ
unfolding unsigned in_int64 negated Option.bind
atoi [] = none
atoi (c ∷ s) =
    if c == b'-'
    then Option.bind (unsigned s) negated
    else if c == b'+'
    then Option.bind (unsigned s) in_int64
    else Option.bind (unsigned (c ∷ s)) in_int64
