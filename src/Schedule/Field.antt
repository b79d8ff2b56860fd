-- ===== src/Schedule/Field.antt =====
-- `cronField`: one field of a cron expression, a list of values, ranges and steps.
use ooth.Prelude.{
  ℕ, zero, suc, ◌+◌, ◌-◌, ◌^◌, ◌%◌, Bool, true, false, not, ◌||◌, ◌&&◌, Option, none, some, List,
  [], ◌∷◌, map, ltb, leb, ◌==◌, if◌then◌else◌, is_empty, all, Result, ok, err, ◌>>=◌,
}
use ooth.Prelude.Signed.{ℤ, pos}
use ooth.Prelude.Texts.{Text, codes, text_eq, split, cut, is_digit, atoi}
use Prim.Native.Nat.{bit_or}

pub data FieldError : Type 0 where
  invalid_value out_of_range bad_step step_without_range descending : FieldError

-- `unicode.ToLower` where its result is an ASCII letter; İ and the Kelvin sign have one too.
unfoldable pub lower : ℕ → ℕ
lower c =
    if leb b'A' c && leb c b'Z'
    then c + 32
    else if c == 0x130
    then b'i'
    else if c == 0x212A
    then b'k'
    else c

-- slices.Index
unfoldable pub index_of : List Text → Text → Option ℕ
index_of [] s = none
index_of (n ∷ ns) s =
    let rest = index_of ns s in
    if text_eq n s then some 0 else elim rest [ none ↦ none | some i ↦ some (suc i) ]

-- Whether strings.Trim(s, "0123456789") leaves nothing.
unfoldable pub all_digits : Text → Bool
unfolding is_digit
all_digits s = all is_digit s

-- The closure `value`: a name, or a number between the limits.
unfoldable pub numeric_value : ℕ → ℕ → Option ℤ → Result FieldError ℕ
numeric_value minimum maximum (some (pos n)) =
    if ltb n minimum || ltb maximum n then err out_of_range else ok n
numeric_value minimum maximum _ = err out_of_range

unfoldable pub field_value : ℕ → ℕ → List Text → Text → Result FieldError ℕ
unfolding numeric_value
field_value minimum maximum names text = elim (index_of names (map lower text)) [
  | some index ↦ ok (minimum + index)
  | none ↦
      if is_empty text || not (all_digits text)
      then err invalid_value
      else numeric_value minimum maximum (atoi text)
]

-- `step <= 0`, with the other reasons to refuse a step.
unfoldable pub positive_step : Text → Option ℤ → Result FieldError ℕ
positive_step text (some (pos (suc n))) = if all_digits text then ok (suc n) else err bad_step
positive_step text _ = err bad_step

-- One item: its first and last number and its step.
pub record Span : Type 0 where
  pub first : ℕ
  pub last : ℕ
  pub step : ℕ

unfoldable pub ascending : ℕ → ℕ → ℕ → Result FieldError Span
ascending first last step =
    if ltb last first
    then err descending
    else ok (record { first = first; last = last; step = step })

module _ (minimum maximum : ℕ) (names : List Text) where
  unfoldable pub base_span : Text → ℕ → Bool → Result FieldError Span
  unfolding ascending
  base_span base step stepped =
      if text_eq base (codes "*")
      then ok (record { first = minimum; last = maximum; step = step })
      else elim (cut b'-' base) [
        | some (start, end) ↦ do
          first ← field_value minimum maximum names start
          last ← field_value minimum maximum names end
          ascending first last step
        | none ↦ do
          first ← field_value minimum maximum names base
          if stepped then err step_without_range else ascending first first step
      ]

  unfoldable pub item_span : Text → Result FieldError Span
  item_span item = elim (cut b'/' item) [
    | none ↦ base_span item 1 false
    | some (base, step_text) ↦ do
      step ← positive_step step_text (atoi step_text)
      base_span base step true
  ]

-- `uint64(1) << number`
abbrev pub shifted : ℕ → ℕ
shifted number = 2 ^ number % 2 ^ 64

-- `for number := first; number <= last; { mask |= 1<<number; … }`, on fuel.
unfoldable pub mark : ℕ → ℕ → ℕ → ℕ → ℕ → ℕ
mark zero number last step mask = mask
mark (suc fuel) number last step mask =
    let marked = bit_or mask (shifted number) in
    let rest = mark fuel (number + step) last step marked in
    if ltb last number then mask else if ltb (last - number) step then marked else rest

unfoldable pub mark_span : Span → ℕ → ℕ
unfolding mark
mark_span s mask = mark (suc s.last - s.first) s.first s.last s.step mask

unfoldable pub mark_items : ℕ → ℕ → List Text → List Text → ℕ → Result FieldError ℕ
mark_items minimum maximum names [] mask = ok mask
mark_items minimum maximum names (item ∷ items) mask = do
  s ← item_span minimum maximum names item
  mark_items minimum maximum names items (mark_span s mask)

unfoldable pub cron_field : Text → ℕ → ℕ → List Text → Result FieldError ℕ
cron_field field minimum maximum names = mark_items minimum maximum names (split b',' field) 0
