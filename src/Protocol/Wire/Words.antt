-- ===== src/Protocol/Wire/Words.antt =====
-- A line of words that are set apart by spaces is cut into these words.
use ooth.Prelude.{
  ◌≡◌, refl, ap, ◌∙◌, Bool, true, false, not, ◌&&◌, List, [], ◌∷◌, ◌++◌, all, is_empty, All, arith,
}
use ooth.Prelude.Texts.{Text, is_space, push_word, field_parts, fields}

-- A word: not empty, and without white space.
pub record IsWord (w : Text) : Type 0 where
  pub filled : is_empty w ≡ false
  pub solid : all (λ c. not (is_space c)) w ≡ true

abbrev pub join : List Text → Text
join [] = []
join (w ∷ []) = w
join (w ∷ v ∷ ws) = w ++ 32 ∷ join (v ∷ ws)

-- The empty text adds nothing.
pub append-nil : (w : Text) → w ++ [] ≡ w
append-nil [] = refl
append-nil (c ∷ w) = ap (λ v. c ∷ v) (append-nil w)

both : (a b : Bool) → (a && b) ≡ true → (a ≡ true) × (b ≡ true)
both a b h = ground arith

not_space : (b : Bool) → not b ≡ true → b ≡ false
not_space b h = ground arith

field_parts-word :
    (w s : Text)
    → all (λ c. not (is_space c)) w ≡ true
    → field_parts (w ++ s) ≡ (w ++ (field_parts s).0, (field_parts s).1)
unfolding field_parts
field_parts-word [] s h = refl
field_parts-word (c ∷ w) s h =
    let parts = both (not (is_space c)) (all (λ c. not (is_space c)) w) h in
    rw (not_space (is_space c) parts.0) (ap (λ p. (c ∷ p.0, p.1)) (field_parts-word w s parts.1))

push_word-filled : (w : Text) (ws : List Text) → is_empty w ≡ false → push_word w ws ≡ w ∷ ws
unfolding push_word
push_word-filled [] ws h = cc
push_word-filled (c ∷ w) ws h = refl

fields-first : (w s : Text) → IsWord w → fields (w ++ 32 ∷ s) ≡ w ∷ fields s
unfolding fields field_parts
fields-first w s h =
    rw (field_parts-word w (32 ∷ s) h.solid)
      (rw (append-nil w) (push_word-filled w (fields s) h.filled))

fields_one : (w : Text) → IsWord w → fields w ≡ w ∷ []
unfolding fields field_parts
fields_one w h =
    let parts = field_parts-word w [] h.solid in
    rw (rw (append-nil w) at parts) (push_word-filled w [] h.filled)

-- Every list of words is read back from its line.
pub fields-join : (ws : List Text) → All IsWord ws → fields (join ws) ≡ ws
unfolding fields field_parts
fields-join [] h = refl
fields-join (w ∷ []) h = fields_one w h.0
fields-join (w ∷ v ∷ ws) h =
    fields-first w (join (v ∷ ws)) h.0 ∙ ap (λ l. w ∷ l) (fields-join (v ∷ ws) h.1)
