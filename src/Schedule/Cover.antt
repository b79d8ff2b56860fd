-- ===== src/Schedule/Cover.antt =====
-- `cronField` sets exactly the numbers that its items name, and only numbers between its limits.
use ooth.Prelude.{
  ℕ, suc, ◌+◌, ◌≤◌, ◌<◌, ◌≡◌, ◌≢◌, sym, ◌∙◌, ◌↔◌, ◌⊎◌, inl, inr, Bool, true, List, [], ◌∷◌, some,
  length, ok, >>=-eq-ok, Option-cases, arith,
}
use mathlib.Core.Path.{subst}
use ooth.Prelude.Texts.{Text, split_parts, split}
use ooth.Prelude.Bits.{has_bit, has_bit-none}
use ooth.Schedule.Field.{
  Span, numeric_value, index_of, field_value, positive_step, ascending, base_span, item_span,
  mark_span, mark_items, cron_field,
}
use mathlib.Core.Bool.{false≢true}
use ooth.Schedule.Marks.{Reaches, mark_span-Marked}

-- A span of a field with these limits.
pub record IsWithin (minimum maximum : ℕ) (s : Span) : Type 0 where
  pub low : minimum ≤ s.first
  pub ordered : s.first ≤ s.last
  pub high : s.last ≤ maximum
  pub positive : 0 < s.step

index_of-lt : (names : List Text) (s : Text) {i : ℕ} → index_of names s ≡ some i → i < length names
unfolding index_of
index_of-lt [] s h = ground arith
index_of-lt (n ∷ ns) s h = elim (Option-cases (index_of ns s)) [
  | inl e ↦ ground arith
  | inr (i, e) ↦ ground (arith, index_of-lt ns s e)
]

-- Some item of the list reads as a span that reaches `n`.
abbrev pub Covered : ℕ → ℕ → List Text → List Text → ℕ → Type 0
Covered minimum maximum names [] n = ⊥
Covered minimum maximum names (item ∷ items) n =
    ((s : Span) × (item_span minimum maximum names item ≡ ok s) × Reaches s.first s.last s.step n)
    ⊎ Covered minimum maximum names items n

module _ (minimum maximum : ℕ) (names : List Text) (ordered : minimum ≤ maximum)
    (named : minimum + length names ≤ suc maximum) where
  abbrev InLimits : ℕ → Type 0
  InLimits n = (minimum ≤ n) × (n ≤ maximum)

  field_value-InLimits :
      (text : Text) {n : ℕ} → field_value minimum maximum names text ≡ ok n → InLimits n
  unfolding field_value numeric_value
  field_value-InLimits text h = grind (arith, index_of-lt)

  base_span-IsWithin :
      (base : Text) (step : ℕ) (stepped : Bool) {s : Span}
      → 0 < step
      → base_span minimum maximum names base step stepped ≡ ok s
      → IsWithin minimum maximum s
  unfolding base_span ascending
  base_span-IsWithin base step stepped positive h = grind (arith, field_value-InLimits)

  item_span-IsWithin :
      (item : Text) {s : Span}
      → item_span minimum maximum names item ≡ ok s
      → IsWithin minimum maximum s
  unfolding item_span positive_step
  item_span-IsWithin item h = grind (arith, base_span-IsWithin)

  Reaches-InLimits :
      (s : Span) (n : ℕ) → IsWithin minimum maximum s → Reaches s.first s.last s.step n → InLimits n
  Reaches-InLimits s n w (q, e, b) = (omega arith, omega arith)

  Covered-InLimits :
      (items : List Text) (n : ℕ) → Covered minimum maximum names items n → InLimits n
  Covered-InLimits [] n h = absurd h
  Covered-InLimits (item ∷ items) n (inl (s, e, r)) =
      Reaches-InLimits s n (item_span-IsWithin item e) r
  Covered-InLimits (item ∷ items) n (inr h) = Covered-InLimits items n h

  module _ (small : maximum < 64) where
    mark_items-Covered :
        (items : List Text) (mask result n : ℕ)
        → mark_items minimum maximum names items mask ≡ ok result
        → (has_bit result n ≡ true)
          ↔ ((has_bit mask n ≡ true) ⊎ Covered minimum maximum names items n)
    unfolding mark_items
    mark_items-Covered [] mask result n h =
        let same : mask ≡ result = cc in rw (← same) (inl, elim [ inl b ↦ b | inr c ↦ absurd c ])
    mark_items-Covered (item ∷ items) mask result n h =
        let (s, e, rest) = >>=-eq-ok (item_span minimum maximum names item) _ h in
        let within = item_span-IsWithin item e in
        let marked = mark_span-Marked s mask n (omega arith) within.positive in
        let later = mark_items-Covered items (mark_span s mask) result n rest in
        (
          λ b. elim (later.0 b) [
            | inl old ↦ elim (marked.0 old) [ inl o ↦ inl o | inr r ↦ inr (inl (s, e, r)) ]
            | inr c ↦ inr (inr c)
          ],
          elim [
            | inl old ↦ later.1 (inl (marked.1 (inl old)))
            | inr (inl (s', e', r)) ↦
                let same : s' ≡ s = cc (e, e') in
                later.1 (
                  inl
                    (marked.1 (inr (subst (λ (z : Span). Reaches z.first z.last z.step n) same r))))
            | inr (inr c) ↦ later.1 (inr c)
          ],
        )

    -- A field that is read sets exactly the bits that one of its items covers: those that lie on the
    -- item's span, a whole number of its steps after the first. The field's limits stay below 64.
    pub cron_field-Covered :
        (field : Text) (mask n : ℕ)
        → cron_field field minimum maximum names ≡ ok mask
        → (has_bit mask n ≡ true) ↔ Covered minimum maximum names (split b',' field) n
    unfolding cron_field
    cron_field-Covered field mask n h =
        let all = mark_items-Covered (split b',' field) 0 mask n h in
        (
          λ b. elim (all.0 b) [
            | inl none_set ↦ absurd (false≢true (rw has_bit-none at none_set))
            | inr c ↦ c
          ],
          λ c. all.1 (inr c),
        )

    -- Every bit that a field sets lies between the field's limits.
    pub cron_field-InLimits :
        (field : Text) (mask n : ℕ)
        → cron_field field minimum maximum names ≡ ok mask
        → has_bit mask n ≡ true
        → InLimits n
    cron_field-InLimits field mask n h b =
        Covered-InLimits (split b',' field) n ((cron_field-Covered field mask n h).0 b)

    first_Covered :
        (item : Text) (items : List Text) (mask result : ℕ)
        → mark_items minimum maximum names (item ∷ items) mask ≡ ok result
        → (n : ℕ) × Covered minimum maximum names (item ∷ items) n
    unfolding mark_items
    first_Covered item items mask result h =
        let (s, e, _) = >>=-eq-ok (item_span minimum maximum names item) _ h in
        let w = item_span-IsWithin item e in (s.first, inl (s, e, (0, omega arith, w.ordered)))

    -- a field that is accepted allows some number, so its mask is not 0
    pub cron_field-ne-zero :
        (field : Text) (mask : ℕ) → cron_field field minimum maximum names ≡ ok mask → mask ≢ 0
    unfolding cron_field split
    cron_field-ne-zero field mask h zero_mask =
        let (n, c) = first_Covered (split_parts b',' field).0 (split_parts b',' field).1 0 mask h in
        let b = (cron_field-Covered field mask n h).1 c in
        false≢true (sym (has_bit-none n) ∙ subst (λ m. has_bit m n ≡ true) zero_mask b)
